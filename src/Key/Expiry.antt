-- ===== src/Key/Expiry.antt =====
-- src/key.rs, `key_is_good`: who may mount, and until when.
use yourfs.Base.{
  ℕ, true, false, List, [], ◌∷◌, none, some, any, get_elem?, ◌≡◌, refl, arith, ◌∙◌, sym, inl, inr,
  Option-cases,
}
use yourfs.Base.Text.{Text, text_eq}
use yourfs.Base.Int.{ℤ, pos, negsuc, le}
use yourfs.Key.{keys, dates, position, expiry, key_is_good}

le_trans : (a b c : ℤ) → le a b ≡ true → le b c ≡ true → le a c ≡ true
unfolding le
le_trans (pos a) (pos b) (pos c) h k = ground arith
le_trans (pos a) (pos b) (negsuc c) h k = k
le_trans (pos a) (negsuc b) c h k = cc
le_trans (negsuc a) b (pos c) h k = refl
le_trans (negsuc a) (negsuc b) (negsuc c) h k = ground arith
le_trans (negsuc a) (pos b) (negsuc c) h k = cc

position-any :
    (key : Text) (ks : List Text) (i : ℕ)
    → position key ks ≡ some i
    → any (λ k. text_eq k key) ks ≡ true
unfolding position
position-any key [] i h = cc
position-any key (k ∷ ks) i h = elim (Option-cases (position key ks)) [
  | inl e ↦ ground arith
  | inr (j, e) ↦ ground (arith, position-any key ks j e)
]

key_is_good_unknown : (key : Text) (t : ℤ) → position key keys ≡ none → key_is_good key t ≡ false
unfolding key_is_good
key_is_good_unknown key t e = rw (e, key_is_good) refl

key_is_good_at :
    (key : Text) (t : ℤ) (i : ℕ)
    → position key keys ≡ some i
    → key_is_good key t ≡ le t (expiry (get_elem? dates i))
unfolding key_is_good
key_is_good_at key t i e = rw (e, key_is_good) refl

-- A key that is good is one of the table, and it was good at every earlier time.
key_is_good-le :
    (key : Text) (now before : ℤ)
    → key_is_good key now ≡ true
    → le before now ≡ true
    → (any (λ k. text_eq k key) keys ≡ true) × (key_is_good key before ≡ true)
key_is_good-le key now before h l = elim (Option-cases (position key keys)) [
  | inl e ↦ let f = key_is_good_unknown key now e in cc
  | inr (i, e) ↦
      let f = sym (key_is_good_at key now i e) ∙ h in
      (
        position-any key keys i e,
        key_is_good_at key before i e ∙ le_trans before now (expiry (get_elem? dates i)) l f,
      )
]
