-- ===== src/OpenaiStream/Client/Texts.antt =====
-- Joined texts grow at their end, and the client's tests accept a value that equals itself.
use Prim.Native.String.{◌++◌ as str_append}
use Prim.Native.String.append
use text.Mathlib.TextLemmas.{append-nil, append_assoc}
use accumulative_matrix_swee.Prelude.{
  ◌≡◌, refl, ap, sym, ◌∙◌, true, List, [], ◌∷◌, ◌++◌, String, arith, eq_refl,
}
use accumulative_matrix_swee.Generation.{concat}
use accumulative_matrix_swee.OpenaiStream.Payloads.{
  Status, in_progress, completed, Item, message_item, reasoning_item, function_call,
}
use accumulative_matrix_swee.OpenaiStream.Client.{texts_eq, status_eq, item_eq, items_eq}

pub concat-append :
    (ts : List String) (t : String) → concat (ts ++ t ∷ []) ≡ str_append (concat ts) t
unfolding concat
concat-append [] t = append-nil t ∙ sym (append.nil t)
concat-append (s ∷ ts) t =
    ap (str_append s) (concat-append ts t) ∙ sym (append_assoc s (concat ts) t)

texts_eq_refl : (ts : List String) → texts_eq ts ts ≡ true
unfolding texts_eq
texts_eq_refl [] = refl
texts_eq_refl (t ∷ ts) = rw (eq_refl t, texts_eq_refl ts)

status_eq_refl : (s : Status) → status_eq s s ≡ true
unfolding status_eq
status_eq_refl in_progress = refl
status_eq_refl completed = refl

pub item_eq_refl : (x : Item) → item_eq x x ≡ true
unfolding item_eq
item_eq_refl (message_item i s c) = ground (arith, eq_refl i, status_eq_refl s, texts_eq_refl c)
item_eq_refl (reasoning_item i c s) = ground (arith, eq_refl i, status_eq_refl s, texts_eq_refl c)
item_eq_refl (function_call i c n a s) =
    ground (arith, eq_refl i, eq_refl c, eq_refl n, eq_refl a, status_eq_refl s)

pub items_eq_refl : (xs : List Item) → items_eq xs xs ≡ true
unfolding items_eq
items_eq_refl [] = refl
items_eq_refl (x ∷ xs) = ground (arith, item_eq_refl x, items_eq_refl xs)
