-- ===== src/Domain/Documents/RoundTrip.antt =====
-- Tax numbers, printed and read back: app/domain/value_objects/{cpf,cnpj}.py.
use Prim.Native.Nat.add
use mathlib.Core.List.{append_assoc}
use billing_core.Shared.{
  ◌+◌, ℕ, zero, suc, ◌≡◌, refl, ap, true, false, [], ◌∷◌, ◌++◌, arith, take, drop, Bool-cases, inl,
  inr,
}
use billing_core.Shared.Texts.{Text}
use billing_core.Shared.Actions.{ok}
use billing_core.Domain.Documents.{
  is_digit, normalize, Cpf, Cnpj, create_cpf, create_cnpj, is_valid_cpf, is_valid_cnpj,
  formatted_cpf, formatted_cnpj,
}

abbrev AllDigits : Text → Type 0
AllDigits [] = Unit {0}
AllDigits (c ∷ s) = (is_digit c ≡ true) × AllDigits s

normalize-AllDigits : (s : Text) → AllDigits (normalize s)
unfolding normalize
normalize-AllDigits [] = tt
normalize-AllDigits (c ∷ s) = elim (Bool-cases (is_digit c)) [
  | inl e ↦ rw e (e, normalize-AllDigits s)
  | inr e ↦ rw e (normalize-AllDigits s)
]

normalize-of-AllDigits : (s : Text) → AllDigits s → normalize s ≡ s
unfolding normalize
normalize-of-AllDigits [] h = refl
normalize-of-AllDigits (c ∷ s) (d, h) = rw (d, normalize-of-AllDigits s h)

normalize-append : (s t : Text) → normalize (s ++ t) ≡ normalize s ++ normalize t
unfolding normalize
normalize-append [] t = refl
normalize-append (c ∷ s) t = elim (Bool-cases (is_digit c)) [
  | inl e ↦ rw e (ap (λ (r : Text). c ∷ r) (normalize-append s t))
  | inr e ↦ rw e (normalize-append s t)
]

-- The characters between two positions, and those after them.
take-nil : (n : ℕ) → take n (let e : Text = [] in e) ≡ []
take-nil zero = refl
take-nil (suc n) = refl

drop-nil : (n : ℕ) → drop n (let e : Text = [] in e) ≡ []
drop-nil zero = refl
drop-nil (suc n) = refl

take-append-drop : (n : ℕ) (s : Text) → take n s ++ drop n s ≡ s
take-append-drop zero s = refl
take-append-drop (suc n) [] = refl
take-append-drop (suc n) (c ∷ s) = ap (λ (r : Text). c ∷ r) (take-append-drop n s)

take-drop-append : (m n : ℕ) (s : Text) → take n (drop m s) ++ drop (m + n) s ≡ drop m s
take-drop-append zero n s = rw add.zero (take-append-drop n s)
take-drop-append (suc m) n [] = rw (take-nil n, drop-nil (suc m + n))
take-drop-append (suc m) n (c ∷ s) = rw add.suc (take-drop-append m n s)

AllDigits-take : (n : ℕ) (s : Text) → AllDigits s → AllDigits (take n s)
AllDigits-take zero s h = tt
AllDigits-take (suc n) [] h = tt
AllDigits-take (suc n) (c ∷ s) (d, h) = (d, AllDigits-take n s h)

AllDigits-drop : (n : ℕ) (s : Text) → AllDigits s → AllDigits (drop n s)
AllDigits-drop zero s h = h
AllDigits-drop (suc n) [] h = tt
AllDigits-drop (suc n) (c ∷ s) (d, h) = AllDigits-drop n s h

-- A punctuation mark is dropped.
normalize-mark : (c : ℕ) (s : Text) → is_digit c ≡ false → normalize (c ∷ s) ≡ normalize s
unfolding normalize
normalize-mark c s h = rw h

module _ (s : Text) (h : AllDigits s) where
  part : (m n : ℕ) → normalize (take n (drop m s)) ≡ take n (drop m s)
  part m n =
      normalize-of-AllDigits (take n (drop m s))
        (AllDigits-take n (drop m s) (AllDigits-drop m s h))

  tail : (m : ℕ) → normalize (drop m s) ≡ drop m s
  tail m = normalize-of-AllDigits (drop m s) (AllDigits-drop m s h)

create_cpf-value :
    (s : Text) {c : Cpf}
    → create_cpf s ≡ ok c
    → (c.value ≡ normalize s) × (is_valid_cpf c.value ≡ true)
unfolding create_cpf
create_cpf-value s e = elim (Bool-cases (is_valid_cpf (normalize s))) [
  | inl v ↦ ground arith
  | inr w ↦ ground arith
]

create_cnpj-value :
    (s : Text) {c : Cnpj}
    → create_cnpj s ≡ ok c
    → (c.value ≡ normalize s) × (is_valid_cnpj c.value ≡ true)
unfolding create_cnpj
create_cnpj-value s e = elim (Bool-cases (is_valid_cnpj (normalize s))) [
  | inl v ↦ ground arith
  | inr w ↦ ground arith
]

normalize-formatted_cpf : (c : Cpf) → AllDigits c.value → normalize (formatted_cpf c) ≡ c.value
unfolding formatted_cpf is_digit
normalize-formatted_cpf c h =
    let v = c.value in
    simp (normalize-append, normalize-mark, part v h 0 3, part v h, tail v h, append_assoc)
      (rw (take-drop-append 6 3 v, take-drop-append 3 3 v) (take-append-drop 3 v))

normalize-formatted_cnpj : (c : Cnpj) → AllDigits c.value → normalize (formatted_cnpj c) ≡ c.value
unfolding formatted_cnpj is_digit
normalize-formatted_cnpj c h =
    let v = c.value in
    simp (normalize-append, normalize-mark, part v h 0 2, part v h, tail v h, append_assoc)
      (rw (take-drop-append 8 4 v, take-drop-append 5 3 v, take-drop-append 2 3 v)
        (take-append-drop 2 v))

AllDigits-normalized : (s t : Text) → t ≡ normalize s → AllDigits t
AllDigits-normalized s t e = rw e (normalize-AllDigits s)

-- A CPF that was accepted, printed with its marks and read again, is the same CPF.
pub create_cpf-formatted :
    (s : Text) {c : Cpf} → create_cpf s ≡ ok c → create_cpf (formatted_cpf c) ≡ ok c
create_cpf-formatted s {c} e =
    let (n, v) = create_cpf-value s e in
    let r = normalize-formatted_cpf c (AllDigits-normalized s c.value n) in
    unfold create_cpf in rw (r, v)

-- A CNPJ that was accepted, printed with its marks and read again, is the same CNPJ.
create_cnpj-formatted :
    (s : Text) {c : Cnpj} → create_cnpj s ≡ ok c → create_cnpj (formatted_cnpj c) ≡ ok c
create_cnpj-formatted s {c} e =
    let (n, v) = create_cnpj-value s e in
    let r = normalize-formatted_cnpj c (AllDigits-normalized s c.value n) in
    unfold create_cnpj in rw (r, v)
