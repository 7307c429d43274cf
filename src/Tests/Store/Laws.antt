-- ===== src/Tests/Store/Laws.antt =====
-- The server in memory keeps the promises of a redis server.
use yourfs.Base.{
  ℕ, Bool, true, false, not, ◌&&◌, ◌||◌, List, [], ◌∷◌, ◌++◌, Option, none, if◌then◌else◌, ◌≡◌,
  refl, sym, ◌∙◌, ap, arith, inl, inr, Bool-cases,
}
use mathlib.Core.Path.{subst}
use yourfs.Base.Text.{Text, codes, text_eq, text_lt, text_eq_iff, text_eq_refl}
use yourfs.Base.Outcome.{ok}
use yourfs.Db.Unsigned.{parse_unsigned, without_plus, parse_digits}
use yourfs.Db.Keys.{is_prefix}
use yourfs.Db.Retry.{Reply, rows, failed}
use yourfs.Db.Retry.Answers.{IsUp}
use yourfs.Db.Redis.{
  Write, zadd, hset, Cmd, ping, hget, zrange, scan, del, atomic, Answer, server, parse_u64,
}
use yourfs.Db.Redis.Laws.{
  elem, IsSorted, stored, added, touched, Same, Scanned, Deleted, Written, IsRedis,
}
use yourfs.Tests.Store.{
  key_of, put_sorted, members_of, init, found_keys, without, reply, store, contents,
}

stored-append :
    (ws vs : List Write) (k f : Text) (old : Option Text)
    → stored (ws ++ vs) k f old ≡ stored vs k f (stored ws k f old)
unfolding stored
stored-append [] vs k f old = refl
stored-append (zadd j m ∷ ws) vs k f old = stored-append ws vs k f old
stored-append (hset j g x ∷ ws) vs k f old = stored-append ws vs k f _

touched-append :
    (ws vs : List Write) (k : Text) → touched (ws ++ vs) k ≡ (touched vs k || touched ws k)
unfolding touched
touched-append [] vs k = ground arith
touched-append (zadd j m ∷ ws) vs k = ground (arith, touched-append ws vs k)
touched-append (hset j g x ∷ ws) vs k = ground (arith, touched-append ws vs k)

added-append :
    (ws vs : List Write) (k m : Text) → added (ws ++ vs) k m ≡ (added vs k m || added ws k m)
unfolding added
added-append [] vs k m = ground arith
added-append (zadd j n ∷ ws) vs k m = ground (arith, added-append ws vs k m)
added-append (hset j g x ∷ ws) vs k m = added-append ws vs k m

text_lt_total : (a b : Text) → text_eq a b ≡ false → text_lt b a ≡ false → text_lt a b ≡ true
text_lt_total [] [] e h = cc
text_lt_total [] (c ∷ b) e h = refl
text_lt_total (c ∷ a) [] e h = cc
text_lt_total (c ∷ a) (d ∷ b) e h = ground (arith, text_lt_total a b)

put_sorted_above :
    (x m : Text) (ys : List Text)
    → text_lt x m ≡ true
    → IsSorted (x ∷ ys)
    → IsSorted (x ∷ put_sorted m ys)
unfolding put_sorted
put_sorted_above x m [] l h = (l, tt)
put_sorted_above x m (y ∷ ys) l (k, h) = elim (Bool-cases (text_eq y m)) [
  | inl e ↦ rw e (k, h)
  | inr e ↦ elim (Bool-cases (text_lt m y)) [
    | inl f ↦ rw (e, f) (l, (f, h))
    | inr f ↦ rw (e, f) (k, put_sorted_above y m ys (text_lt_total y m e f) h)
  ]
]

put_sorted-IsSorted : (m : Text) (xs : List Text) → IsSorted xs → IsSorted (put_sorted m xs)
unfolding put_sorted
put_sorted-IsSorted m [] h = tt
put_sorted-IsSorted m (x ∷ xs) h = elim (Bool-cases (text_eq x m)) [
  | inl e ↦ rw e h
  | inr e ↦ elim (Bool-cases (text_lt m x)) [
    | inl f ↦ rw (e, f) (f, h)
    | inr f ↦ rw (e, f) (put_sorted_above x m xs (text_lt_total x m e f) h)
  ]
]

elem-put_sorted :
    (m n : Text) (xs : List Text) → elem n (put_sorted m xs) ≡ (text_eq m n || elem n xs)
unfolding put_sorted
elem-put_sorted m n [] = refl
elem-put_sorted m n (x ∷ xs) = elim (Bool-cases (text_eq x m)) [
  | inl e ↦ rw (e, (text_eq_iff x m).0 e) (ground arith)
  | inr e ↦ rw e (ground (arith, elem-put_sorted m n xs))
]

members_of-IsSorted : (ws : List Write) (k : Text) → IsSorted (members_of ws k)
unfolding members_of
members_of-IsSorted [] k = tt
members_of-IsSorted (zadd j m ∷ ws) k = elim (Bool-cases (text_eq j k)) [
  | inl e ↦ rw e (put_sorted-IsSorted m (members_of ws k) (members_of-IsSorted ws k))
  | inr e ↦ rw e (members_of-IsSorted ws k)
]
members_of-IsSorted (hset j f x ∷ ws) k = members_of-IsSorted ws k

elem-members_of : (ws : List Write) (k m : Text) → elem m (members_of ws k) ≡ added ws k m
unfolding members_of added
elem-members_of [] k m = refl
elem-members_of (zadd j n ∷ ws) k m = elim (Bool-cases (text_eq j k)) [
  | inl e ↦ rw (e, elem-put_sorted n m (members_of ws k), elem-members_of ws k m) refl
  | inr e ↦ rw (e, elem-members_of ws k m) refl
]
elem-members_of (hset j f x ∷ ws) k m = elem-members_of ws k m

untouched :
    (ws : List Write) (k : Text)
    → touched ws k ≡ false
    → ((f : Text) → stored ws k f none ≡ none) × (members_of ws k ≡ [])
unfolding touched stored members_of
untouched [] k h = ((λ f. refl), refl)
untouched (zadd j m ∷ ws) k h =
    let e : text_eq j k ≡ false = ground (arith, h) in
    let t : touched ws k ≡ false = ground (arith, h) in
    ((untouched ws k t).0, rw e (untouched ws k t).1)
untouched (hset j g x ∷ ws) k h =
    let e : text_eq j k ≡ false = ground (arith, h) in
    let t : touched ws k ≡ false = ground (arith, h) in
    ((λ f. rw e ((untouched ws k t).0 f)), (untouched ws k t).1)

touched_key :
    (w : Write) (ws : List Write) (k : Text)
    → touched (w ∷ ws) k ≡ (text_eq (key_of w) k || touched ws k)
unfolding touched
touched_key (zadd j m) ws k = refl
touched_key (hset j g x) ws k = refl

touched-found_keys :
    (p : Text) (ws : List Write) (k : Text)
    → elem k (found_keys p ws) ≡ (is_prefix p k && touched ws k)
unfolding found_keys
touched-found_keys p [] k = unfold touched in (ground arith)
touched-found_keys p (w ∷ ws) k =
    rw (touched_key w ws k) (elim (Bool-cases (text_eq (key_of w) k)) [
      | inl e ↦
          rw ((text_eq_iff (key_of w) k).0 e)
            (ground (arith, text_eq_refl k, touched-found_keys p ws k))
      | inr e ↦ ground (arith, e, touched-found_keys p ws k)
    ])

touched-without :
    (ks : List Text) (ws : List Write) (k : Text)
    → touched (without ks ws) k ≡ (not (elem k ks) && touched ws k)
unfolding without
touched-without ks [] k = unfold touched in (ground arith)
touched-without ks (w ∷ ws) k = rw (touched_key w ws k) (elim (Bool-cases (elem (key_of w) ks)) [
  | inl e ↦ rw e (elim (Bool-cases (text_eq (key_of w) k)) [
    | inl f ↦
        let g : elem k ks ≡ true =
          subst (λ (x : Text). elem x ks ≡ true) ((text_eq_iff (key_of w) k).0 f) e in
        touched-without ks ws k ∙ rw g refl
    | inr f ↦ rw f (touched-without ks ws k)
  ])
  | inr e ↦
      rw (e, touched_key w (without ks ws) k)
        (elim (Bool-cases (text_eq (key_of w) k)) [
          | inl f ↦
              let g : elem k ks ≡ false =
                subst (λ (x : Text). elem x ks ≡ false) ((text_eq_iff (key_of w) k).0 f) e in
              rw (f, g) refl
          | inr f ↦ rw f (touched-without ks ws k)
        ])
])

elem_apart :
    (ks : List Text) (j k : Text) → elem j ks ≡ true → elem k ks ≡ false → text_eq j k ≡ false
elem_apart ks j k h e = elim (Bool-cases (text_eq j k)) [
  | inl f ↦ let g = subst (λ (x : Text). elem x ks ≡ true) ((text_eq_iff j k).0 f) h in cc
  | inr f ↦ f
]

stored-without :
    (ks : List Text) (ws : List Write) (k f : Text) (old : Option Text)
    → elem k ks ≡ false
    → stored (without ks ws) k f old ≡ stored ws k f old
unfolding without stored
stored-without ks [] k f old h = refl
stored-without ks (zadd j m ∷ ws) k f old h = elim (Bool-cases (elem j ks)) [
  | inl e ↦ rw e (stored-without ks ws k f old h)
  | inr e ↦ rw e (stored-without ks ws k f old h)
]
stored-without ks (hset j g x ∷ ws) k f old h = elim (Bool-cases (elem j ks)) [
  | inl e ↦ rw (e, elem_apart ks j k e h) (stored-without ks ws k f old h)
  | inr e ↦ rw e (stored-without ks ws k f _ h)
]

members_of-without :
    (ks : List Text) (ws : List Write) (k : Text)
    → elem k ks ≡ false
    → members_of (without ks ws) k ≡ members_of ws k
unfolding without members_of
members_of-without ks [] k h = refl
members_of-without ks (hset j g x ∷ ws) k h = elim (Bool-cases (elem j ks)) [
  | inl e ↦ rw e (members_of-without ks ws k h)
  | inr e ↦ rw e (members_of-without ks ws k h)
]
members_of-without ks (zadd j m ∷ ws) k h = elim (Bool-cases (elem j ks)) [
  | inl e ↦ rw (e, elem_apart ks j k e h) (members_of-without ks ws k h)
  | inr e ↦ rw e (
      ap (λ (l : List Text). if text_eq j k then put_sorted m l else l)
        (members_of-without ks ws k h))
]

init-snoc : (p : Text) (c : ℕ) → init (p ++ c ∷ []) ≡ p
unfolding init
init-snoc [] c = refl
init-snoc (x ∷ []) c = refl
init-snoc (x ∷ y ∷ p) c = ap (λ (l : Text). x ∷ l) (init-snoc (y ∷ p) c)

Same-self : (u : List Write) → Same contents u u
Same-self u = record { hash_same = λ k f. refl; members_same = λ k. refl; has_same = λ k. refl }

answered :
    {A B : Type 0} (a b : A) (u v : B)
    → ◌≡◌ {A = Reply A × B} (rows a, u) (rows b, v)
    → (a ≡ b) × (u ≡ v)
answered a b u v h = (
  ap (λ (r : Reply _ × _). elim r.0 [ rows x ↦ x | failed io e ↦ a ]) h,
  ap (λ (r : Reply _ × _). r.1) h,
)

zero_text : parse_u64 (codes "0") ≡ ok 0
unfolding parse_unsigned without_plus parse_digits
zero_text = refl

store_scans :
    (c : ℕ) (p next : Text) (ks : List Text) (u v : List Write)
    → next ≡ codes "0"
    → ks ≡ found_keys p u
    → u ≡ v
    → (d : ℕ) × (parse_u64 next ≡ ok d) × Scanned contents u v p c d ks
unfolding contents
store_scans c p next ks u v a b e = (
  0,
  ap parse_u64 a ∙ zero_text,
  record {
    scan_same = subst (λ (x : List Write). Same contents u x) e (Same-self u);
    only = λ k h. (let f = ap (elem k) b ∙ touched-found_keys p u k in ground (arith, f, h));
    complete = λ k h t o. inl (ap (elem k) b ∙ touched-found_keys p u k ∙ rw (h, t) refl);
    ends = λ h. absurd (omega (arith, h));
  },
)

answers : (c : Cmd) (w : List Write) → (a : Answer c) × ((reply c w).0 ≡ rows a)
unfolding reply
answers ping w = (_, refl)
answers (hget k f) w = (_, refl)
answers (zrange k) w = (_, refl)
answers (scan c p) w = (_, refl)
answers (del ks) w = (_, refl)
answers (atomic ws) w = (_, refl)

never : (n : ℕ) (c : Cmd) (w : List Write) (io : Bool) (e : Text) → (reply c w).0 ≡ failed io e → ⊥
never n c w io e h = let (a, f) = answers c w in cc

store_dels : (ks : List Text) (u : List Write) → Deleted contents u (without ks u) ks
unfolding contents
store_dels ks u = record {
  has_deleted = λ k. touched-without ks u k;
  hash_kept = λ k f h. stored-without ks u k f none h;
  members_kept = λ k h. members_of-without ks u k h;
  due_kept = λ c k h. refl;
  left_kept = λ c. refl;
}

store_atomics : (ws u : List Write) → Written contents u (u ++ ws) ws
unfolding contents
store_atomics ws u = record {
  hash_written = λ k f. stored-append u ws k f none;
  members_written = λ k m.
      elem-members_of (u ++ ws) k m ∙ added-append u ws k m ∙ rw (elem-members_of u k m) refl;
  has_written = λ k. touched-append u ws k;
}

pub store-IsRedis : IsRedis contents store
unfolding contents store reply
store-IsRedis = record {
  sorted = λ w k. members_of-IsSorted w k;
  absent = λ w k h. untouched w k h;
  starts = λ w k h. refl;
  makes = λ w. record { same = Same-self w; due_still = λ c k. refl; left_still = λ c. refl };
  fails = λ n c w io e r h. absurd (never n c w io e h);
  hgets = λ n k f u v a h.
      let (x, y) = answered (stored u k f none) a u v h in
      (subst (λ (z : List Write). Same contents u z) y (Same-self u), sym x);
  zranges = λ n k u v a h.
      let (x, y) = answered (members_of u k) a u v h in
      (subst (λ (z : List Write). Same contents u z) y (Same-self u), sym x);
  scans = λ n c p next ks u v l h.
      let (x, y) = answered (codes "0", found_keys (init (p ++ b'*' ∷ [])) u) (next, ks) u v h in
      store_scans c p next ks u v (sym (ap (λ (q : Text × List Text). q.0) x))
        (sym (ap (λ (q : Text × List Text). q.1) x)
          ∙ ap (λ (q : Text). found_keys q u) (init-snoc p b'*'))
        y;
  dels = λ n ks u v a h.
      let (x, y) = answered 0 a (without ks u) v h in
      subst (λ (z : List Write). Deleted contents u z ks) y (store_dels ks u);
  atomics = λ n ws u v a h.
      let (x, y) = answered tt a (u ++ ws) v h in
      subst (λ (z : List Write). Written contents u z ws) y (store_atomics ws u);
}

pub store-IsUp : (c : Cmd) → IsUp (server 10 store c)
unfolding server store
store-IsUp c = record { makes = λ w. (0, refl); queries = λ n w. answers c w }
