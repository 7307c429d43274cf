-- ===== src/Nfs/Actor.antt =====
-- src/nfscli.rs, `runner`, `handle_task` and `complete`: the actor that owns one connection. An
-- operation is a number. What libnfs does with a request, and when it completes one, is open.
use yourfs.Base.{
  ℕ, zero, suc, ◌+◌, Bool, true, false, List, [], ◌∷◌, ◌++◌, Option, none, some, length,
  length-append, count, count-append, ◌≡◌, refl, ap, sym, ◌∙◌, arith,
}
use mathlib.Core.Path.{subst}
use mathlib.Core.Option.{some-injective}

-- `inflight` is the slot's counter, `outstanding` what libnfs has queued; `submitted` and `replied`
-- record the operations taken from the channel and those whose caller was woken.
pub record Actor : Type 0 where
  pub running : Bool
  pub inflight : ℕ
  pub outstanding : List ℕ
  pub submitted : List ℕ
  pub replied : List ℕ

pub data Task : Type 0 where
  quit : Task
  op : ℕ → Task

-- The call of `issue`: the request is queued, is completed before the call returns, or is rejected
-- by a negative return, and then libnfs never completes it.
pub data Issue : Type 0 where
  queued at_once rejected : Issue

-- `complete`, and the end of a rejected operation: `fetch_sub`, then the reply. `none` is a wrap
-- of the counter below zero.
unfoldable pub complete : ℕ → Actor → Option Actor
complete id a = elim a.inflight [
  | zero ↦ none
  | suc n ↦ some (record a { inflight = n; replied = id ∷ a.replied })
]

-- The counter is raised before the request is issued.
abbrev pub raised : ℕ → Actor → Actor
raised id a = record a { inflight = suc a.inflight; submitted = id ∷ a.submitted }

unfoldable pub handle_task : Task → Issue → Actor → Option Actor
unfolding complete
handle_task quit i a = some (record a { running = false })
handle_task (op id) queued a = some (record (raised id a) { outstanding = id ∷ a.outstanding })
handle_task (op id) at_once a = complete id (raised id a)
handle_task (op id) rejected a = complete id (raised id a)

pub data Step (a b : Actor) : Type 0 where
  -- A task is taken from the channel.
  handles : (t : Task) (i : Issue) → a.running ≡ true → handle_task t i a ≡ some b → Step a b
  -- `nfs_service` completes a queued request.
  serviced :
      (xs ys : List ℕ) (id : ℕ)
      → a.outstanding ≡ xs ++ id ∷ ys
      → complete id (record a { outstanding = xs ++ ys }) ≡ some b
      → Step a b

pub data Reach (a : Actor) : Actor → Type 0 where
  here : Reach a a
  next : {b c : Actor} → Reach a b → Step b c → Reach a c

abbrev pub idle_actor : Actor
idle_actor = record { running = true; inflight = 0; outstanding = []; submitted = []; replied = [] }

record Inv (a : Actor) : Type 0 where
  counted : a.inflight ≡ length a.outstanding
  answered : (id : ℕ) → count id a.submitted ≡ count id a.replied + count id a.outstanding

handle_task-Inv : (t : Task) (i : Issue) (a b : Actor) → handle_task t i a ≡ some b → Inv a → Inv b
unfolding handle_task
handle_task-Inv quit i a b e v =
    subst Inv (some-injective _ _ e) (record { counted = v.counted; answered = v.answered })
handle_task-Inv (op id) queued a b e v =
    subst Inv (some-injective _ _ e)
      (record { counted = omega (arith, v.counted); answered = λ k. omega (arith, v.answered k) })
handle_task-Inv (op id) at_once a b e v =
    subst Inv (some-injective _ _ e)
      (record { counted = v.counted; answered = λ k. omega (arith, v.answered k) })
handle_task-Inv (op id) rejected a b e v =
    subst Inv (some-injective _ _ e)
      (record { counted = v.counted; answered = λ k. omega (arith, v.answered k) })

length_middle : (xs ys : List ℕ) (id : ℕ) → length (xs ++ id ∷ ys) ≡ suc (length (xs ++ ys))
length_middle xs ys id = omega (arith, length-append xs (id ∷ ys), length-append xs ys)

-- A completion finds the counter above zero.
complete_lem :
    (a : Actor) (xs ys : List ℕ) (id : ℕ)
    → a.outstanding ≡ xs ++ id ∷ ys
    → Inv a
    → complete id (record a { outstanding = xs ++ ys })
      ≡ some (record a {
        inflight = length (xs ++ ys);
        outstanding = xs ++ ys;
        replied = id ∷ a.replied;
      })
unfolding complete
complete_lem a xs ys id h v =
    let n : a.inflight ≡ suc (length (xs ++ ys)) =
      v.counted ∙ ap length h ∙ length_middle xs ys id in
    ground arith

serviced-Inv :
    (a b : Actor) (xs ys : List ℕ) (id : ℕ)
    → a.outstanding ≡ xs ++ id ∷ ys
    → complete id (record a { outstanding = xs ++ ys }) ≡ some b
    → Inv a
    → Inv b
serviced-Inv a b xs ys id h e v =
    subst Inv (some-injective _ _ (sym (complete_lem a xs ys id h v) ∙ e)) (record {
      counted = refl;
      answered = λ k.
          omega (
            arith,
            v.answered k,
            ap (count k) h,
            count-append k xs (id ∷ ys),
            count-append k xs ys,
          );
    })

Step-Inv : {a b : Actor} → Step a b → Inv a → Inv b
Step-Inv {a} {b} (handles t i r e) v = handle_task-Inv t i a b e v
Step-Inv {a} {b} (serviced xs ys id h e) v = serviced-Inv a b xs ys id h e v

Reach-Inv : {a : Actor} → Reach idle_actor a → Inv a
Reach-Inv here = record { counted = refl; answered = λ k. refl }
Reach-Inv (next r st) = Step-Inv st (Reach-Inv r)

-- A completion never drives the counter below zero.
complete-outstanding :
    {a : Actor} (xs ys : List ℕ) (id : ℕ)
    → Reach idle_actor a
    → a.outstanding ≡ xs ++ id ∷ ys
    → complete id (record a { outstanding = xs ++ ys })
      ≡ some (record a {
        inflight = length (xs ++ ys);
        outstanding = xs ++ ys;
        replied = id ∷ a.replied;
      })
complete-outstanding {a} xs ys id r h = complete_lem a xs ys id h (Reach-Inv r)
