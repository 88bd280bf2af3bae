-- ===== src/Domain/Documents.antt =====
-- app/domain/value_objects/{cpf,cnpj}.py: the two tax numbers, with their check digits.
pub mod RoundTrip
mod Examples
use billing_core.Shared.{
  ℕ, zero, suc, ◌+◌, ◌-◌, ◌*◌, ◌%◌, Bool, true, false, not, ◌&&◌, List, [], ◌∷◌, ◌++◌, leb, ltb,
  ◌==◌, if◌then◌else◌, length, take, drop, select,
}
use billing_core.Shared.Texts.{Text}
use billing_core.Shared.Actions.{domain, Result, ok, err}

-- `str.isdigit`, on ASCII texts: the digits of other scripts are not modelled.
unfoldable pub is_digit : ℕ → Bool
is_digit c = leb b'0' c && leb c b'9'

-- `_normalize`
unfoldable pub normalize : Text → Text
unfolding select is_digit
normalize s = select is_digit s

-- `int(digit)`
abbrev digit : ℕ → ℕ
digit c = c - b'0'

-- `s == s[0] * n` of a text of length n: every character is the first.
all_equal : ℕ → Text → Bool
all_equal c [] = true
all_equal c (d ∷ s) = (d == c) && all_equal c s

unfoldable pub is_repeated : Text → Bool
unfolding all_equal
is_repeated [] = true
is_repeated (c ∷ s) = all_equal c s

-- `sum(int(d) * w for d, w in zip(base, weights))`
weighted : Text → List ℕ → ℕ
weighted [] ws = 0
weighted (c ∷ s) [] = 0
weighted (c ∷ s) (w ∷ ws) = digit c * w + weighted s ws

-- The character at a position that is there.
abbrev pub char_at : Text → ℕ → ℕ
char_at [] i = 0
char_at (c ∷ s) zero = c
char_at (c ∷ s) (suc i) = char_at s i

-- `CPF._is_valid`: a sum times 10, modulo 11, with 10 read as 0; the weights are `10 - i` in the
-- first sum and `11 - i` in the second.
cpf_digit : ℕ → ℕ
cpf_digit total = let d = total * 10 % 11 in if d == 10 then 0 else d

abbrev cpf_weights_1 : List ℕ
cpf_weights_1 = 10 ∷ 9 ∷ 8 ∷ 7 ∷ 6 ∷ 5 ∷ 4 ∷ 3 ∷ 2 ∷ []

abbrev cpf_weights_2 : List ℕ
cpf_weights_2 = 11 ∷ 10 ∷ 9 ∷ 8 ∷ 7 ∷ 6 ∷ 5 ∷ 4 ∷ 3 ∷ 2 ∷ []

unfoldable pub is_valid_cpf : Text → Bool
unfolding is_repeated weighted cpf_digit
is_valid_cpf s =
    if not (length s == 11)
    then false
    else if is_repeated s
    then false
    else if not (cpf_digit (weighted (take 9 s) cpf_weights_1) == digit (char_at s 9))
    then false
    else cpf_digit (weighted (take 10 s) cpf_weights_2) == digit (char_at s 10)

-- `CNPJ._is_valid`
cnpj_digit : ℕ → ℕ
cnpj_digit total = let r = total % 11 in if ltb r 2 then 0 else 11 - r

abbrev cnpj_weights_1 : List ℕ
cnpj_weights_1 = 5 ∷ 4 ∷ 3 ∷ 2 ∷ 9 ∷ 8 ∷ 7 ∷ 6 ∷ 5 ∷ 4 ∷ 3 ∷ 2 ∷ []

abbrev cnpj_weights_2 : List ℕ
cnpj_weights_2 = 6 ∷ 5 ∷ 4 ∷ 3 ∷ 2 ∷ 9 ∷ 8 ∷ 7 ∷ 6 ∷ 5 ∷ 4 ∷ 3 ∷ 2 ∷ []

unfoldable pub is_valid_cnpj : Text → Bool
unfolding is_repeated weighted cnpj_digit
is_valid_cnpj s =
    if not (length s == 14)
    then false
    else if is_repeated s
    then false
    else if not (cnpj_digit (weighted (take 12 s) cnpj_weights_1) == digit (char_at s 12))
    then false
    else cnpj_digit (weighted (take 13 s) cnpj_weights_2) == digit (char_at s 13)

-- The two classes: `create` is the constructor, `formatted` the property.
pub record Cpf : Type 0 where
  pub value : Text

pub record Cnpj : Type 0 where
  pub value : Text

-- `__post_init__`; the message of the exception also quotes the text.
unfoldable pub create_cpf : Text → Result Cpf
create_cpf s =
    let n = normalize s in
    if is_valid_cpf n then ok (record { value = n }) else err (domain "Invalid CPF")

unfoldable pub create_cnpj : Text → Result Cnpj
create_cnpj s =
    let n = normalize s in
    if is_valid_cnpj n then ok (record { value = n }) else err (domain "Invalid CNPJ")

unfoldable pub formatted_cpf : Cpf → Text
formatted_cpf c =
    take 3 c.value
    ++ (b'.' ∷ take 3 (drop 3 c.value))
    ++ (b'.' ∷ take 3 (drop 6 c.value))
    ++ (b'-' ∷ drop 9 c.value)

unfoldable pub formatted_cnpj : Cnpj → Text
formatted_cnpj c =
    take 2 c.value
    ++ (b'.' ∷ take 3 (drop 2 c.value))
    ++ (b'.' ∷ take 3 (drop 5 c.value))
    ++ (b'/' ∷ take 4 (drop 8 c.value))
    ++ (b'-' ∷ drop 12 c.value)
