-- ===== src/Storage/Tests.antt =====
-- A file that hands out at most two bytes of each read, read and hashed.
use accumulative_matrix_swee.Prelude.{
  ℕ, zero, suc, sym, length-take, ◌+◌, ◌≤◌, ◌≡◌, refl, ap, true, false, Option, some, List, [], ◌∷◌,
  ◌++◌, min, arith, length, take, drop,
}
use accumulative_matrix_swee.Prelude.Text.{codes}
use accumulative_matrix_swee.Errors.{Result, ok, is_ok}
use accumulative_matrix_swee.Checked.{
  nat, checked_uint, checked_positive, checked_add, checked_range_end,
}
use accumulative_matrix_swee.Descriptors.Syntax.{list_eq}
use accumulative_matrix_swee.Codecs.Stream.{IsReader, Hashes}
use accumulative_matrix_swee.Storage.{
  File, IsFile, read_loop, read_range, read_into, store_reader, checked_buffer, hash_loop,
  hash_reader_range,
}
use accumulative_matrix_swee.Storage.Returned.{store_reader-IsReader, hash_reader_range-eq_ok}

abbrev bytes : List ℕ
bytes = 10 ∷ 11 ∷ 12 ∷ 13 ∷ 14 ∷ 15 ∷ []

abbrev file : File
file = record {
  H = ℕ;
  size = 6;
  open_at = λ offset. ok offset;
  readinto = λ n h.
      (ok (some (take (min n 2) (drop h bytes))), h + length (take (min n 2) (drop h bytes)));
  position = λ h. h;
}

part_of :
    (n h : ℕ) (part : List ℕ)
    → ◌≡◌ {A = Result (Option (List ℕ))}
        (ok (some (take (min n 2) (drop h bytes))))
        (ok (some part))
    → take (min n 2) (drop h bytes) ≡ part
part_of n h part e = cc

take_length : (m : ℕ) (xs : List ℕ) → take (length (take m xs)) xs ≡ take m xs
take_length zero xs = refl
take_length (suc m) [] = refl
take_length (suc m) (x ∷ xs) = ap (λ r. x ∷ r) (take_length m xs)

read_part :
    (n h : ℕ) (part : List ℕ)
    → take (min n 2) (drop h bytes) ≡ part
    → part ≡ take (length part) (drop h bytes)
read_part n h part e = rw (← e) (sym (take_length (min n 2) (drop h bytes)))

fits_part : (n h : ℕ) (part : List ℕ) → take (min n 2) (drop h bytes) ≡ part → length part ≤ n
fits_part n h part e = rw (← e) (omega (arith, length-take (min n 2) (drop h bytes)))

file-IsFile : IsFile file bytes
file-IsFile = record {
  opened = λ offset h e. cc;
  reads = λ n h part e. read_part n h part (part_of n h part e);
  advances = λ n h part e. ap (λ p. h + length p) (part_of n h part e);
  fits = λ n h part e. fits_part n h part (part_of n h part e);
}

abbrev hashes : Hashes
hashes = record { available = λ a. true; hexdigest = λ a content. content }

read_five : read_into file 6 (nat 1) 5 false ≡ ok (11 ∷ 12 ∷ 13 ∷ 14 ∷ 15 ∷ [])
unfolding read_into read_range read_loop checked_range_end checked_positive checked_add checked_uint
read_five = refl

past_end_refused : is_ok (read_into file 6 (nat 2) 5 false) ≡ false
unfolding read_into read_range read_loop checked_range_end checked_positive checked_add checked_uint
past_end_refused = refl

store_reader-IsReader_example : IsReader (store_reader file 6) bytes
store_reader-IsReader_example = store_reader-IsReader file bytes file-IsFile 6

hashed :
    hash_reader_range hashes (store_reader file 6) (nat 1) (nat 4) (nat 3) "sha256"
    ≡ ok (codes "sha256:" ++ (11 ∷ 12 ∷ 13 ∷ 14 ∷ []))
unfolding hash_reader_range hash_loop checked_buffer list_eq read_into read_range read_loop
    checked_range_end checked_positive checked_add checked_uint
hashed = refl

hash_reader_range-eq_ok_example :
    codes "sha256:" ++ (11 ∷ 12 ∷ 13 ∷ 14 ∷ [])
    ≡ codes "sha256" ++ codes ":" ++ take 4 (drop 1 bytes)
hash_reader_range-eq_ok_example =
    hash_reader_range-eq_ok hashes (store_reader file 6) bytes
      (store_reader-IsReader file bytes file-IsFile 6) 1 4 (nat 3) "sha256"
      (codes "sha256:" ++ (11 ∷ 12 ∷ 13 ∷ 14 ∷ [])) hashed
