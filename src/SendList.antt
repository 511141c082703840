-- ===== src/SendList.antt =====
-- What the program relies on of server/list.c, a copy of another project's linked list: the values
-- from head to tail, their number, and `list_lpop`, which takes the first.
use push_server.Base.{
  ℕ, zero, suc, List, [], ◌∷◌, Option, none, some, Bytes, length, ◌≡◌, refl, ap, arith, ◌<◌,
}

pub record ListLibrary : Type 1 where
  pub Handle : Type 0
  pub values : Handle → List Bytes
  pub len : Handle → ℕ
  pub lpop : Handle → Option (Bytes × Handle)
  pub len-values : (l : Handle) → len l ≡ length (values l)
  pub lpop-nil : (l : Handle) → values l ≡ [] → lpop l ≡ none
  pub lpop-cons :
      (l : Handle) (x : Bytes) (xs : List Bytes)
      → values l ≡ x ∷ xs
      → (r : Handle) × (lpop l ≡ some (x, r)) × (values r ≡ xs)

-- `while ((last = list_lpop(sendto)) != NULL)`; the fuel is the number of values and one more.
unfoldable pub drain : (S : ListLibrary) → ℕ → S.Handle → List Bytes
drain S zero l = []
drain S (suc n) l = elim (S.lpop l) [ none ↦ [] | some (x, r) ↦ x ∷ drain S n r ]

drain-values :
    (S : ListLibrary) (n : ℕ) (xs : List Bytes) (l : S.Handle)
    → S.values l ≡ xs
    → length xs < n
    → drain S n l ≡ xs
unfolding drain
drain-values S zero xs l v h = elim h [ ]
drain-values S (suc n) [] l v h = rw (S.lpop-nil l v, drain) refl
drain-values S (suc n) (x ∷ xs) l v h =
    let (r, e, w) = S.lpop-cons l x xs v in
    rw (e, drain) (ap (λ (t : List Bytes). x ∷ t) (drain-values S n xs r w (omega arith)))

-- The loop sees every value, in order.
pub drain-len : (S : ListLibrary) (l : S.Handle) → drain S (suc (S.len l)) l ≡ S.values l
drain-len S l = drain-values S (suc (S.len l)) (S.values l) l refl (omega (arith, S.len-values l))

-- Lists themselves are such a library.
unfoldable pub lpop_list : List Bytes → Option (Bytes × List Bytes)
lpop_list [] = none
lpop_list (x ∷ xs) = some (x, xs)

pub lpop_list-nil : (l : List Bytes) → l ≡ [] → lpop_list l ≡ none
unfolding lpop_list
lpop_list-nil l e = rw e refl

pub lpop_list-cons :
    (l : List Bytes) (x : Bytes) (xs : List Bytes)
    → l ≡ x ∷ xs
    → (r : List Bytes) × (lpop_list l ≡ some (x, r)) × (r ≡ xs)
unfolding lpop_list
lpop_list-cons l x xs e = (xs, rw e refl, refl)

abbrev pub plain_lists : ListLibrary
plain_lists = record {
  Handle = List Bytes;
  values = λ l. l;
  len = length;
  lpop = lpop_list;
  len-values = λ l. refl;
  lpop-nil = lpop_list-nil;
  lpop-cons = lpop_list-cons;
}
