-- ===== src/Db/Keys/Distinct.antt =====
-- src/db.rs: the keys of different tables and directories are different.
use yourfs.Base.{true, ◌||◌, [], ◌∷◌, ◌++◌, ◌==◌, all, ◌≡◌, ◌≢◌, refl, arith}
use yourfs.Base.Text.{Text, is_ascii_alphanumeric, Lacks}
use yourfs.Db.Keys.{check_ident, dir_key, hash_key}

check_ident-Lacks : (t : Text) → check_ident t ≡ true → Lacks b'|' t
unfolding check_ident is_ascii_alphanumeric
check_ident-Lacks t h = all-Lacks t (ground arith)
  where
    all-Lacks : (s : Text) → all (λ c. is_ascii_alphanumeric c || c == b'_') s ≡ true → Lacks b'|' s
    all-Lacks [] e = tt
    all-Lacks (c ∷ cs) e = (ground arith, all-Lacks cs (ground arith))

-- A text in front of the first bar is determined by the whole.
bar_injective :
    (a b x y : Text)
    → Lacks b'|' a
    → Lacks b'|' b
    → a ++ b'|' ∷ x ≡ b ++ b'|' ∷ y
    → (a ≡ b) × (x ≡ y)
bar_injective [] [] x y ha hb e = (refl, ground arith)
bar_injective [] (d ∷ b) x y ha hb e = let h = hb.0 in ground arith
bar_injective (c ∷ a) [] x y ha hb e = let h = ha.0 in ground arith
bar_injective (c ∷ a) (d ∷ b) x y ha hb e =
    let tail : a ++ b'|' ∷ x ≡ b ++ b'|' ∷ y = ground arith in
    let r = bar_injective a b x y ha.1 hb.1 tail in ground (arith, r)

-- For names that `check_ident` accepts, a hash key names its table and its directory, so does a
-- sorted-set key, and no key of the one kind is a key of the other: what is written for one table
-- and directory is never read for another.
pub keys_distinct :
    (table other parent parent' : Text)
    → check_ident table ≡ true
    → check_ident other ≡ true
    → (hash_key table parent ≡ hash_key other parent' → (table ≡ other) × (parent ≡ parent'))
      × (dir_key table parent ≡ dir_key other parent' → (table ≡ other) × (parent ≡ parent'))
      × (hash_key table parent ≢ dir_key other parent')
unfolding hash_key dir_key
keys_distinct t u p q ht hu =
    let bar = bar_injective t u in
    (
      (λ e.
          let r = bar _ _ (check_ident-Lacks t ht) (check_ident-Lacks u hu) e in
          (r.0, ground (arith, r.1))),
      (λ e.
          let r = bar _ _ (check_ident-Lacks t ht) (check_ident-Lacks u hu) e in
          (r.0, ground (arith, r.1))),
      λ e.
          let r = bar _ _ (check_ident-Lacks t ht) (check_ident-Lacks u hu) e in
          ground (arith, r.1),
    )
