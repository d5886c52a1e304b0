-- ===== src/Rasvn/Conn/RoundTrip.antt =====
-- `read_item` (src/rasvn/conn/io.rs) over what `encode_item` (src/rasvn/item.rs) writes.
use svn.Base.{
  ℕ, suc, ◌^◌, ◌<◌, ◌≡◌, refl, sym, ap, ◌∙◌, subst, arith, List, [], ◌∷◌, ◌++◌, Bytes, text,
  bytes_eq, length, append_assoc, append-nil, leb, false, ok, inl, inr,
}
use svn.Base.Words.{IsU64}
use svn.Rasvn.Item.{
  SvnItem, Items, word, number, string, list, bool, no_items, item, items, to_list, encode_item,
  encode_items,
}
use svn.Rasvn.Wire as Wire
use svn.Rasvn.Wire.Appends.{
  Appends, Appends-compose, word-Appends, number-Appends, bool-Appends, string_str-Appends,
  list_start-Appends, list_end-Appends,
}
use svn.Rasvn.Conn.Read.{Reader, loop}
use svn.Rasvn.Conn.Io.{
  Stack, push_atom, read_atom, read_list_body, read_list, read_item, max_list_depth,
}
use svn.Rasvn.Conn.Items.{read_list_body-IsRound}
use svn.Rasvn.Conn.Stream.{
  Gets, run_Gets, upcoming, return-Gets, bind-Gets, if_false-Gets, more-Gets, done-Gets,
  peek_byte-Gets, consume_byte-Gets,
}
use svn.Rasvn.Conn.Tokens.{skip_ws-Gets, require_ws-Gets}
use svn.Rasvn.Conn.Atoms.{
  AtomAt, atom_at, IsWord, number-AtomAt, string-AtomAt, word-AtomAt, bool-AtomAt,
}

-- What can be read back inside `d` open lists.
unfoldable mutual
  pub IsReadable : ℕ → SvnItem → Type 0
  IsReadable d (word w) =
      IsWord w × (bytes_eq w (text "true") ≡ false) × (bytes_eq w (text "false") ≡ false)
  IsReadable d (number n) = IsU64 n
  IsReadable d (string s) = length s < 2 ^ 63
  IsReadable d (bool b) = Unit
  IsReadable d (list xs) = (d < 256) × AreReadable (suc d) xs

  pub AreReadable : ℕ → Items → Type 0
  AreReadable d no_items = Unit
  AreReadable d (item x xs) = IsReadable d x × AreReadable d xs

mutual
  unfolding encode_item encode_items Wire.string_str

  pub encode_item-Appends : (x : SvnItem) → Appends (encode_item x)
  encode_item-Appends (word w) = word-Appends w
  encode_item-Appends (number n) = number-Appends n
  encode_item-Appends (bool b) = bool-Appends b
  encode_item-Appends (string s) = string_str-Appends s
  encode_item-Appends (list xs) =
      let inside =
        Appends-compose Wire.list_start (encode_items xs) list_start-Appends
          (encode_items-Appends xs) in
      Appends-compose (λ out. encode_items xs (Wire.list_start out)) Wire.list_end inside
        list_end-Appends

  encode_items-Appends : (xs : Items) → Appends (encode_items xs)
  encode_items-Appends no_items = λ out. sym (append-nil out)
  encode_items-Appends (item x xs) =
      Appends-compose (encode_item x) (encode_items xs) (encode_item-Appends x)
        (encode_items-Appends xs)

list_bytes :
    (xs : Items) (rest : Bytes)
    → encode_item (list xs) [] ++ rest ≡ 40 ∷ 32 ∷ (encode_items xs [] ++ (41 ∷ 32 ∷ rest))
unfolding encode_item Wire.list_start Wire.list_end
list_bytes xs rest =
    append_assoc (encode_items xs (40 ∷ 32 ∷ [])) (41 ∷ 32 ∷ []) rest
    ∙ ap (λ (t : Bytes). t ++ (41 ∷ 32 ∷ rest)) (encode_items-Appends xs (40 ∷ 32 ∷ []))

items_bytes :
    (x : SvnItem) (xs : Items) (rest : Bytes)
    → encode_items (item x xs) [] ++ rest ≡ encode_item x [] ++ (encode_items xs [] ++ rest)
unfolding encode_items
items_bytes x xs rest =
    ap (λ (t : Bytes). t ++ rest) (encode_items-Appends xs (encode_item x []))
    ∙ append_assoc (encode_item x []) (encode_items xs []) rest

Finishes : Stack → Bytes → SvnItem → Bytes → Type 0
Finishes stack bs x rest = Gets (loop read_list_body stack) bs x rest

atom_round :
    (x : SvnItem) (top : List SvnItem) (more : Stack) (bs rest : Bytes) (y : SvnItem) (end : Bytes)
    → AtomAt x bs rest
    → Gets (loop read_list_body ((top ++ (x ∷ [])) ∷ more)) rest y end
    → Gets (loop read_list_body (top ∷ more)) bs y end
unfolding read_list_body
atom_round x top more bs rest y end (atom_at b tl e ws not_close not_open h) k =
    more-Gets read_list_body read_list_body-IsRound
      (subst
        (λ (t : Bytes). Gets (read_list_body (top ∷ more)) t (inl ((top ++ (x ∷ [])) ∷ more)) rest)
        (sym e)
        (bind-Gets _ (skip_ws-Gets b tl ws) (
          bind-Gets _ (peek_byte-Gets b tl) (
            if_false-Gets _ not_close (
              if_false-Gets _ not_open (
                bind-Gets (push_atom (top ∷ more))
                  (subst (λ (t : Bytes). Gets read_atom t x rest) e h)
                  (return-Gets (inl ((top ++ (x ∷ [])) ∷ more)) rest)))))))
      k

open_round :
    (stack : Stack) (bs : Bytes) (y : SvnItem) (end : Bytes)
    → length stack < 256
    → Gets (loop read_list_body ([] ∷ stack)) bs y end
    → Gets (loop read_list_body stack) (40 ∷ 32 ∷ bs) y end
unfolding read_list_body
open_round stack bs y end h k =
    more-Gets read_list_body read_list_body-IsRound
      (bind-Gets _ (skip_ws-Gets 40 (32 ∷ bs) refl) (
        bind-Gets _ (peek_byte-Gets 40 (32 ∷ bs)) (
          if_false-Gets _ (deep (length stack) h) (
            bind-Gets _ (consume_byte-Gets 40 (32 ∷ bs))
              (bind-Gets _ (require_ws-Gets bs) (return-Gets (inl ([] ∷ stack)) bs))))))
      k
  where
    deep : (n : ℕ) → n < 256 → leb max_list_depth n ≡ false
    deep n h = ground arith

close_round :
    (done parent : List SvnItem) (more : Stack) (bs : Bytes) (y : SvnItem) (end : Bytes)
    → Gets (loop read_list_body ((parent ++ (list (items done) ∷ [])) ∷ more)) bs y end
    → Gets (loop read_list_body (done ∷ parent ∷ more)) (41 ∷ 32 ∷ bs) y end
unfolding read_list_body
close_round done parent more bs y end k =
    more-Gets read_list_body read_list_body-IsRound
      (bind-Gets _ (skip_ws-Gets 41 (32 ∷ bs) refl) (
        bind-Gets _ (peek_byte-Gets 41 (32 ∷ bs)) (
          bind-Gets _ (consume_byte-Gets 41 (32 ∷ bs)) (
            bind-Gets _ (require_ws-Gets bs)
              (return-Gets (inl ((parent ++ (list (items done) ∷ [])) ∷ more)) bs)))))
      k

last_round :
    (done : List SvnItem) (bs : Bytes)
    → Gets (loop read_list_body (done ∷ [])) (41 ∷ 32 ∷ bs) (list (items done)) bs
unfolding read_list_body
last_round done bs = done-Gets read_list_body read_list_body-IsRound (
    bind-Gets _ (skip_ws-Gets 41 (32 ∷ bs) refl) (
      bind-Gets _ (peek_byte-Gets 41 (32 ∷ bs)) (
        bind-Gets _ (consume_byte-Gets 41 (32 ∷ bs))
          (bind-Gets _ (require_ws-Gets bs) (return-Gets (inr (list (items done))) bs)))))

pub items-to_list : (xs : Items) → items (to_list xs) ≡ xs
items-to_list no_items = refl
items-to_list (item x xs) = ap (item x) (items-to_list xs)

-- Inside open lists: the items go behind those of the innermost one.
mutual
  unfolding IsReadable AreReadable encode_items

  item_inside :
      (x : SvnItem) (top : List SvnItem) (more : Stack) (rest : Bytes) (y : SvnItem) (end : Bytes)
      → IsReadable (suc (length more)) x
      → Gets (loop read_list_body ((top ++ (x ∷ [])) ∷ more)) rest y end
      → Gets (loop read_list_body (top ∷ more)) (encode_item x [] ++ rest) y end
  item_inside (word w) top more rest y end (h, t, f) k =
      atom_round (word w) top more _ rest y end (word-AtomAt w rest h t f) k
  item_inside (number n) top more rest y end h k =
      atom_round (number n) top more _ rest y end (number-AtomAt n rest h) k
  item_inside (string s) top more rest y end h k =
      atom_round (string s) top more _ rest y end (string-AtomAt s rest h) k
  item_inside (bool b) top more rest y end h k =
      atom_round (bool b) top more _ rest y end (bool-AtomAt b rest) k
  item_inside (list xs) top more rest y end (d, h) k =
      subst (λ (t : Bytes). Gets (loop read_list_body (top ∷ more)) t y end)
        (sym (list_bytes xs rest))
        (open_round (top ∷ more) (encode_items xs [] ++ (41 ∷ 32 ∷ rest)) y end d (
          items_inside xs [] (top ∷ more) (41 ∷ 32 ∷ rest) y end h (
            close_round (to_list xs) top more rest y end (
              subst (λ s. Gets (loop read_list_body ((top ++ (list s ∷ [])) ∷ more)) rest y end)
                (sym (items-to_list xs)) k))))

  items_inside :
      (xs : Items) (top : List SvnItem) (more : Stack) (rest : Bytes) (y : SvnItem) (end : Bytes)
      → AreReadable (suc (length more)) xs
      → Gets (loop read_list_body ((top ++ to_list xs) ∷ more)) rest y end
      → Gets (loop read_list_body (top ∷ more)) (encode_items xs [] ++ rest) y end
  items_inside no_items top more rest y end h k =
      subst (λ t. Gets (loop read_list_body (t ∷ more)) rest y end) (append-nil top) k
  items_inside (item x xs) top more rest y end (h, hs) k =
      subst (λ (t : Bytes). Gets (loop read_list_body (top ∷ more)) t y end)
        (sym (items_bytes x xs rest))
        (item_inside x top more (encode_items xs [] ++ rest) y end h (
          items_inside xs (top ++ (x ∷ [])) more rest y end hs (
            subst (λ t. Gets (loop read_list_body (t ∷ more)) rest y end)
              (sym (append_assoc top (x ∷ []) (to_list xs))) k)))

atom_item : (x : SvnItem) (bs rest : Bytes) → AtomAt x bs rest → Gets read_item bs x rest
unfolding read_item
atom_item x bs rest (atom_at b tl e ws not_close not_open h) =
    subst (λ (t : Bytes). Gets read_item t x rest) (sym e)
      (bind-Gets _ (skip_ws-Gets b tl ws) (
        bind-Gets _ (peek_byte-Gets b tl)
          (if_false-Gets _ not_open (subst (λ (t : Bytes). Gets read_atom t x rest) e h))))

list_item :
    (xs : Items) (rest : Bytes)
    → AreReadable 1 xs
    → Gets read_item (40 ∷ 32 ∷ (encode_items xs [] ++ (41 ∷ 32 ∷ rest))) (list xs) rest
unfolding read_item read_list
list_item xs rest h =
    let bs = encode_items xs [] ++ (41 ∷ 32 ∷ rest) in
    bind-Gets _ (skip_ws-Gets 40 (32 ∷ bs) refl) (
      bind-Gets _ (peek_byte-Gets 40 (32 ∷ bs)) (
        bind-Gets _ (consume_byte-Gets 40 (32 ∷ bs)) (
          bind-Gets _ (require_ws-Gets bs) (
            items_inside xs [] [] (41 ∷ 32 ∷ rest) (list xs) rest h (
              subst
                (λ s. Gets (loop read_list_body (to_list xs ∷ [])) (41 ∷ 32 ∷ rest) (list s) rest)
                (items-to_list xs) (last_round (to_list xs) rest))))))

pub encoded_item :
    (x : SvnItem) (rest : Bytes) → IsReadable 0 x → Gets read_item (encode_item x [] ++ rest) x rest
unfolding IsReadable
encoded_item (word w) rest (h, t, f) = atom_item (word w) _ rest (word-AtomAt w rest h t f)
encoded_item (number n) rest h = atom_item (number n) _ rest (number-AtomAt n rest h)
encoded_item (string s) rest h = atom_item (string s) _ rest (string-AtomAt s rest h)
encoded_item (bool b) rest h = atom_item (bool b) _ rest (bool-AtomAt b rest)
encoded_item (list xs) rest (d, h) =
    subst (λ (t : Bytes). Gets read_item t (list xs) rest) (sym (list_bytes xs rest))
      (list_item xs rest h)

-- An item that the encoder writes is read back, and no byte behind it is taken, whichever reads of
-- the stream its bytes come in, where every word in it is UTF-8 that starts with no digit, holds no
-- whitespace and no delimiter and is neither `true` nor `false`, its numbers have 64 bits, its
-- strings less than 2 ^ 63 bytes and its lists are not nested deeper than 256.
pub read_item-encode_item :
    (x : SvnItem) (rest : Bytes) (r : Reader)
    → IsReadable 0 x
    → upcoming r ≡ encode_item x [] ++ rest
    → (r' : Reader) × (read_item r ≡ (r', ok x)) × (upcoming r' ≡ rest)
read_item-encode_item x rest r h e = run_Gets (encoded_item x rest h) r e
