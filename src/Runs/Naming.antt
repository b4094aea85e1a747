-- ===== src/Runs/Naming.antt =====
-- routes.py: generate_run_name, RUN-YYYYMMDD-NNN.
use distributed_verification.Prelude.{
  ℕ, zero, suc, ◌+◌, ◌/◌, ◌%◌, ◌≤◌, ◌≡◌, refl, inl, inr, arith, Bool-cases, Bool, false, ◌&&◌, none,
  some, [], ◌∷◌, ◌++◌, Text, codes, starts_with, ◌==◌, ltb, if◌then◌else◌, count,
}
use distributed_verification.Model.{Run, Db}

-- The decimal digits of a number, by division with fuel; a number is enough fuel for itself.
digits_from : ℕ → ℕ → Text → Text
digits_from zero n acc = acc
digits_from (suc fuel) n acc =
    let more = digits_from fuel (n / 10) ((b'0' + n % 10) ∷ acc) in if n == 0 then acc else more

-- More fuel than the number changes nothing.
digits_from_fuel :
    (f g n : ℕ) (acc : Text) → n ≤ f → n ≤ g → digits_from f n acc ≡ digits_from g n acc
unfolding digits_from
digits_from_fuel zero zero n acc h k = refl
digits_from_fuel zero (suc g) n acc h k = let e : n ≡ 0 = omega arith in rw e refl
digits_from_fuel (suc f) zero n acc h k = let e : n ≡ 0 = omega arith in rw e refl
digits_from_fuel (suc f) (suc g) n acc h k = elim (Bool-cases (n == 0)) [
  | inl e ↦ rw e refl
  | inr e ↦
      rw e (digits_from_fuel f g (n / 10) ((b'0' + n % 10) ∷ acc) (ground arith) (ground arith))
]

unfoldable pub decimal : ℕ → Text
unfolding digits_from
decimal n = if n == 0 then codes "0" else digits_from n n []

-- `f"{n:03d}"`.
unfoldable pub pad3 : ℕ → Text
unfolding decimal
pad3 n =
    if ltb n 10
    then codes "00" ++ decimal n
    else (if ltb n 100 then codes "0" ++ decimal n else decimal n)

abbrev pub run_prefix : Text → Text
run_prefix today = codes "RUN-" ++ today ++ codes "-"

-- `Run.client_id == client_id and Run.run_name.like(prefix + "%")`.
abbrev pub named_today : Text → ℕ → Run → Bool
named_today today client_id r =
    r.client_id == client_id
    && elim r.run_name [ none ↦ false | some name ↦ starts_with (run_prefix today) name ]

unfoldable pub generate_run_name : Text → ℕ → Db → Text
unfolding pad3
generate_run_name today client_id db =
    run_prefix today ++ pad3 (count (named_today today client_id) db.runs + 1)
