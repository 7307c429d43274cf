-- ===== src/Nfs/Readlink.antt =====
-- src/nfscli.rs, `readlink`, with `readlink_cb` of src/libnfs.rs. `lossy` is
-- `String::from_utf8_lossy` and the bytes of what it gives.
use yourfs.Base.{
  ℕ, zero, suc, ◌<◌, Bool-cases, inl, inr, List, [], ◌∷◌, ◌++◌, Option, none, some, ◌==◌,
  if◌then◌else◌, take, drop, length, ◌≡◌, refl, ap, arith,
}
use yourfs.Base.Text.{Text}
use yourfs.Base.Int.{ℤ, pos, negsuc}
use yourfs.Base.Outcome.{Outcome}
use yourfs.Fs.Defs.{Caller, overwrite}
use yourfs.Nfs.Defs.{NfsPool, readlinks, Link, pick, checked}

-- The bytes in front of the first 0.
unfoldable pub until_nul : List ℕ → List ℕ
until_nul [] = []
until_nul (b ∷ bs) = let rest = until_nul bs in if b == 0 then [] else b ∷ rest

unfoldable pub zeros : ℕ → List ℕ
zeros zero = []
zeros (suc n) = 0 ∷ zeros n

-- `strncat`: at most `max` bytes of `src` and a 0, after the string in `dst`.
unfoldable pub strncat : List ℕ → List ℕ → ℕ → List ℕ
strncat dst src max =
    let front = until_nul dst in
    front ++ overwrite (take max (until_nul src) ++ 0 ∷ []) (drop (length front) dst)

-- `none` is a null pointer.
unfoldable pub readlink_cb : ℤ → Option (List ℕ) → ℕ → List ℕ → List ℕ
readlink_cb (negsuc n) bytes max buf = buf
readlink_cb (pos n) none max buf = buf
readlink_cb (pos n) (some bytes) max buf = strncat buf bytes max

unfoldable pub readlink :
    {W Statvfs : Type 0}
    → Link W Statvfs
    → (List ℕ → List ℕ)
    → Text
    → ℕ
    → Caller
    → NfsPool × W
    → Outcome ℤ (List ℕ) × NfsPool × W
readlink link lossy path size caller (p, w) =
    let i = pick p in
    let r = link i.0 (some caller) (readlinks path) w in
    let buf = readlink_cb r.0.status r.0.bytes size (zeros (suc size)) in
    (checked r.0.status (lossy (until_nul buf)), i.1, r.1)

until_nul-zeros : (n : ℕ) → until_nul (zeros n) ≡ []
unfolding until_nul zeros
until_nul-zeros zero = refl
until_nul-zeros (suc n) = refl

-- A string and its 0 over the front of zeros.
until_nul-overwrite :
    (src : List ℕ) (max m : ℕ)
    → max < m
    → until_nul (overwrite (take max (until_nul src) ++ 0 ∷ []) (zeros m))
      ≡ take max (until_nul src)
unfolding until_nul zeros overwrite
until_nul-overwrite src max zero h = absurd (omega (arith, h))
until_nul-overwrite [] zero (suc m) h = refl
until_nul-overwrite [] (suc max) (suc m) h = refl
until_nul-overwrite (b ∷ src) zero (suc m) h = refl
until_nul-overwrite (b ∷ src) (suc max) (suc m) h = elim (Bool-cases (b == 0)) [
  | inl e ↦ rw e refl
  | inr e ↦
      rw e (rw e (ap (λ (l : List ℕ). b ∷ l) (until_nul-overwrite src max m (omega (arith, h)))))
]

-- A server that succeeds: the target up to its first 0, and no more than `size` bytes of it.
until_nul-strncat :
    (src : List ℕ) (size : ℕ)
    → until_nul (strncat (zeros (suc size)) src size) ≡ take size (until_nul src)
unfolding strncat
until_nul-strncat src size =
    rw (until_nul-zeros (suc size)) (until_nul-overwrite src size (suc size) (omega arith))
