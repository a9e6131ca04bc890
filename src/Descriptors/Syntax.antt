-- ===== src/Descriptors/Syntax.antt =====
-- src/ams/descriptors.py: the syntax of identifiers, content digests and semantic versions. Each
-- regular expression is matched from the left, on the code points of the text.
use accumulative_matrix_swee.Prelude.{
  ℕ, Bool, true, false, ◌&&◌, ◌||◌, Option, none, some, List, [], ◌∷◌, String, ltb, leb, length,
  all, any, ◌==◌, if◌then◌else◌,
}
use accumulative_matrix_swee.Prelude.Text.{codes}
use accumulative_matrix_swee.Errors.{Result, ok, raise, invalid_package}
use accumulative_matrix_swee.Checked.{Value, int, bool, str, other}

-- `[0-9]`, `[A-Za-z0-9]`, `[0-9a-f]`
is_digit : ℕ → Bool
is_digit c = leb b'0' c && leb c b'9'

is_alnum : ℕ → Bool
unfolding is_digit
is_alnum c = is_digit c || leb b'A' c && leb c b'Z' || leb b'a' c && leb c b'z'

is_lower_hex : ℕ → Bool
unfolding is_digit
is_lower_hex c = is_digit c || leb b'a' c && leb c b'f'

-- `[A-Za-z0-9._:/@+\-]`
is_identifier_char : ℕ → Bool
unfolding is_alnum
is_identifier_char c = is_alnum c || any (λ d. c == d) (codes "._:/@+-")

-- `_IDENTIFIER`
is_identifier : List ℕ → Bool
unfolding is_alnum is_identifier_char
is_identifier [] = false
is_identifier (c ∷ cs) = is_alnum c && all is_identifier_char cs && ltb (length cs) 512

unfoldable pub validate_identifier : Value → Result String
unfolding is_identifier
validate_identifier (str value) =
    if is_identifier (codes value) then ok value else raise invalid_package
validate_identifier (int _) = raise invalid_package
validate_identifier (bool _) = raise invalid_package
validate_identifier other = raise invalid_package

-- `text.split(":", 1)`: what stands before and after the first colon; `none` if there is none.
unfoldable pub split_colon : List ℕ → Option (List ℕ × List ℕ)
split_colon [] = none
split_colon (c ∷ cs) =
    if c == b':'
    then some ([], cs)
    else elim (split_colon cs) [ none ↦ none | some (a, b) ↦ some (c ∷ a, b) ]

unfoldable pub list_eq : List ℕ → List ℕ → Bool
list_eq [] [] = true
list_eq (x ∷ xs) (y ∷ ys) = x == y && list_eq xs ys
list_eq _ _ = false

-- `_DIGEST_LENGTH` at one of its three keys.
digest_length : List ℕ → Option ℕ
unfolding list_eq
digest_length a =
    if list_eq a (codes "sha256")
    then some 64
    else if list_eq a (codes "sha512")
    then some 128
    else if list_eq a (codes "blake3")
    then some 64
    else none

-- `_DIGEST` and the length of its second group.
is_digest : List ℕ → Bool
unfolding split_colon digest_length is_lower_hex
is_digest cs = elim (split_colon cs) [
  | none ↦ false
  | some (algorithm, hex) ↦ elim (digest_length algorithm) [
    | none ↦ false
    | some n ↦ all is_lower_hex hex && length hex == n
  ]
]

unfoldable pub validate_digest : Value → Result String
unfolding is_digest
validate_digest (str value) = if is_digest (codes value) then ok value else raise invalid_package
validate_digest (int _) = raise invalid_package
validate_digest (bool _) = raise invalid_package
validate_digest other = raise invalid_package

-- What is left behind `(0|[1-9][0-9]*)`: the digits are taken as far as they go.
skip_digits : List ℕ → List ℕ
unfolding is_digit
skip_digits [] = []
skip_digits (c ∷ cs) = if is_digit c then skip_digits cs else c ∷ cs

skip_number : List ℕ → Option (List ℕ)
unfolding skip_digits
skip_number [] = none
skip_number (c ∷ cs) =
    if c == b'0' then some cs else if is_digit c then some (skip_digits cs) else none

skip_char : ℕ → List ℕ → Option (List ℕ)
skip_char d [] = none
skip_char d (c ∷ cs) = if c == d then some cs else none

-- `[0-9A-Za-z.-]`
is_tag_char : ℕ → Bool
unfolding is_alnum
is_tag_char c = is_alnum c || c == b'.' || c == b'-'

-- `[0-9A-Za-z.-]+` up to the end.
is_tag : List ℕ → Bool
unfolding is_tag_char
is_tag [] = false
is_tag (c ∷ cs) = all is_tag_char (c ∷ cs)

-- `[0-9A-Za-z.-]*(?:\+[0-9A-Za-z.-]+)?$`
is_tag_and_build : List ℕ → Bool
unfolding is_tag
is_tag_and_build [] = true
is_tag_and_build (c ∷ cs) = if c == b'+' then is_tag cs else is_tag_char c && is_tag_and_build cs

-- `(?:-[0-9A-Za-z.-]+)?(?:\+[0-9A-Za-z.-]+)?$`
is_version_tail : List ℕ → Bool
unfolding is_tag_and_build
is_version_tail [] = true
is_version_tail (c ∷ []) = false
is_version_tail (c ∷ d ∷ cs) =
    if c == b'+' then is_tag (d ∷ cs) else c == b'-' && is_tag_char d && is_tag_and_build cs

infixl 5 ◌>>=◌
abbrev ◌>>=◌ : {A B : Type 0} → Option A → (A → Option B) → Option B
none >>= f = none
some a >>= f = f a

is_semver : List ℕ → Bool
unfolding skip_number skip_char is_version_tail
is_semver cs =
    elim (do
      a ← skip_number cs
      b ← skip_char b'.' a
      c ← skip_number b
      d ← skip_char b'.' c
      skip_number d) [ none ↦ false | some tail ↦ is_version_tail tail ]

unfoldable pub validate_semver : Value → Result String
unfolding is_semver
validate_semver (str value) = if is_semver (codes value) then ok value else raise invalid_package
validate_semver (int _) = raise invalid_package
validate_semver (bool _) = raise invalid_package
validate_semver other = raise invalid_package
