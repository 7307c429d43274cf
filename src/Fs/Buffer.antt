-- ===== src/Fs/Buffer.antt =====
-- src/fs.rs, `yourfs_readlink`: what the caller's buffer holds.
use yourfs.Base.{
  ℕ, zero, suc, ◌-◌, ◌<◌, ◌≤◌, List, [], ◌∷◌, ltb, if◌then◌else◌, ◌==◌, min, length, take, set,
  drop, ◌≡◌, refl, arith, ap, sym, ◌∙◌, lt→ltb, inl, inr, Bool-cases,
}
use yourfs.Base.Text.{Lacks}
use yourfs.Fs.Defs.{overwrite, store_link}

-- The bytes in front of the first NUL.
abbrev pub c_string : List ℕ → List ℕ
c_string [] = []
c_string (b ∷ bs) = if b == 0 then [] else b ∷ c_string bs

c_string_cut :
    (k n : ℕ) (t buf : List ℕ)
    → k ≤ n
    → k ≤ length t
    → k < length buf
    → Lacks 0 t
    → c_string (set (overwrite (take n t) buf) k 0) ≡ take k t
unfolding overwrite
c_string_cut k n t [] kn kt kb h = absurd (omega arith)
c_string_cut zero zero t (x ∷ buf) kn kt kb h = refl
c_string_cut zero (suc n) [] (x ∷ buf) kn kt kb h = refl
c_string_cut zero (suc n) (c ∷ t) (x ∷ buf) kn kt kb h = refl
c_string_cut (suc k) zero t (x ∷ buf) kn kt kb h = absurd (omega arith)
c_string_cut (suc k) (suc n) [] (x ∷ buf) kn kt kb h = absurd (omega arith)
c_string_cut (suc k) (suc n) (c ∷ t) (x ∷ buf) kn kt kb h =
    rw h.0 (ap (◌∷◌ c) (c_string_cut k n t buf (omega arith) (omega arith) (omega arith) h.1))

take_all : (k : ℕ) (t : List ℕ) → length t ≤ k → take k t ≡ t
take_all zero [] h = refl
take_all zero (c ∷ t) h = absurd (omega arith)
take_all (suc k) [] h = refl
take_all (suc k) (c ∷ t) h = ap (◌∷◌ c) (take_all k t (omega arith))

pub drop-overwrite :
    (n k : ℕ) (t buf : List ℕ) → n ≤ k → drop k (overwrite (take n t) buf) ≡ drop k buf
unfolding overwrite
drop-overwrite zero k t buf h = refl
drop-overwrite (suc n) zero t buf h = absurd (omega arith)
drop-overwrite (suc n) (suc k) [] buf h = refl
drop-overwrite (suc n) (suc k) (c ∷ t) [] h = refl
drop-overwrite (suc n) (suc k) (c ∷ t) (x ∷ buf) h = drop-overwrite n k t buf (omega arith)

drop-set : (i k : ℕ) (buf : List ℕ) (v : ℕ) → i < k → drop k (set buf i v) ≡ drop k buf
drop-set i zero buf v h = absurd (omega arith)
drop-set i (suc k) [] v h = refl
drop-set zero (suc k) (x ∷ buf) v h = refl
drop-set (suc i) (suc k) (x ∷ buf) v h = drop-set i k buf v (omega arith)

-- A link target with no NUL that is stored in a buffer of at least `size` bytes, `size` not 0, is
-- read back as a C string: whole if it is shorter than `size`, and else cut to `size - 1` bytes.
-- Nothing past the first `size` bytes of the buffer is touched.
pub c_string-store_link :
    (target buf : List ℕ) (size : ℕ)
    → 0 < size
    → size ≤ length buf
    → Lacks 0 target
    → (c_string (store_link target size buf) ≡ take (size - 1) target)
      × (drop size (store_link target size buf) ≡ drop size buf)
unfolding store_link
c_string-store_link target buf size pos fits h =
    elim (Bool-cases (ltb (min (length target) size) size)) [
      | inl short ↦
          let n = min (length target) size in
          let whole : n ≡ length target = ground arith in
          (
            rw (short, whole)
                (c_string_cut (length target) (length target) target buf (omega arith) (omega arith)
                    (ground arith) h
                  ∙ take_all (length target) target (omega arith)
                  ∙ sym (take_all (size - 1) target (ground arith))),
            rw short (
                drop-set n size _ 0 (ground arith)
                ∙ drop-overwrite n size target buf (ground arith)),
          )
      | inr long ↦
          let n = min (length target) size in
          (
            rw (long, lt→ltb 0 size pos)
                (c_string_cut (size - 1) n target buf (ground arith) (ground arith) (omega arith)
                  h),
            rw (long, lt→ltb 0 size pos)
                (drop-set (size - 1) size _ 0 (omega arith)
                  ∙ drop-overwrite n size target buf (ground arith)),
          )
    ]
