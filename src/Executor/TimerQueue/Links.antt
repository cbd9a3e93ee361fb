-- ===== src/Executor/TimerQueue/Links.antt =====
-- The linked list of the timer queue: its invariant, the cell before a place, and a removal there.
use embassy.Base.{
  ℕ, ◌≡◌, refl, ap, ◌∙◌, true, false, Option, none, some, List, [], ◌∷◌, ◌++◌, arith, ◌==◌,
  if◌then◌else◌, ==_iff, ==_refl,
}
use embassy.Executor.{System, mem, Chain, Distinct}
use embassy.Executor.Chains.{
  mem_self, mem-append, Chain-ext, Distinct-middle, mem_middle, member_ne, member_ne',
}
use embassy.Executor.TimerQueue.{get_cell, remove}

abbrev pub timer_next_of : System → ℕ → Option ℕ
timer_next_of s t = (s.headers t).timer_next

-- The tasks that are linked from the head are linked once, and are those marked TIMER_QUEUED.
pub record IsTimed (s : System) (tasks : List ℕ) : Type 0 where
  pub linked : Chain (timer_next_of s) s.timer_head tasks
  pub distinct : Distinct tasks
  pub marked : (t : ℕ) → (s.headers t).timer_queued ≡ mem t tasks

abbrev pub last_of : ℕ → List ℕ → ℕ
last_of d [] = d
last_of d (e ∷ es) = last_of e es

-- The cell that points to what comes after `done`.
abbrev pub cell_after : List ℕ → Option ℕ
cell_after [] = none
cell_after (d ∷ ds) = some (last_of d ds)

last_of-snoc : (d : ℕ) (ds : List ℕ) (p : ℕ) → last_of d (ds ++ (p ∷ [])) ≡ p
last_of-snoc d [] p = refl
last_of-snoc d (e ∷ es) p = last_of-snoc e es p

pub cell_after-snoc : (done : List ℕ) (p : ℕ) → cell_after (done ++ (p ∷ [])) ≡ some p
cell_after-snoc [] p = refl
cell_after-snoc (d ∷ ds) p = ap some (last_of-snoc d ds p)

Chain-after :
    (next : ℕ → Option ℕ) (d : ℕ) (ds rest : List ℕ)
    → Chain next (next d) (ds ++ rest)
    → Chain next (next (last_of d ds)) rest
Chain-after next d [] rest c = c
Chain-after next d (e ∷ es) rest c = Chain-after next e es rest c.1

pub cell-Chain :
    (s : System) (done rest : List ℕ)
    → Chain (timer_next_of s) s.timer_head (done ++ rest)
    → Chain (timer_next_of s) (get_cell s (cell_after done)) rest
cell-Chain s [] rest c = c
cell-Chain s (d ∷ ds) rest c = Chain-after (timer_next_of s) d ds rest c.1

last_of-mem : (d : ℕ) (ds : List ℕ) → mem (last_of d ds) (d ∷ ds) ≡ true
last_of-mem d [] = mem_self d []
last_of-mem d (e ∷ es) = ground (arith, last_of-mem e es)

-- The links with `p` cut out after the last of `d ∷ ds`.
abbrev relinked : (ℕ → Option ℕ) → ℕ → ℕ → ℕ → Option ℕ
relinked next last p u = if last == u then next p else next u

cut :
    (next : ℕ → Option ℕ) (p d : ℕ) (ds rest : List ℕ)
    → Distinct (d ∷ (ds ++ (p ∷ rest)))
    → Chain next (next d) (ds ++ (p ∷ rest))
    → let next' = relinked next (last_of d ds) p in Chain next' (next' d) (ds ++ rest)
cut next p d [] rest dist c =
    let out : mem d rest ≡ false = ground (arith, dist.0) in
    rw (==_refl d) (
      Chain-ext next (relinked next d p) (next p) rest (λ u m. rw (member_ne d u rest out m) refl)
        c.1)
cut next p d (e ∷ es) rest dist c =
    let last = last_of e es in
    let within : mem last ((e ∷ es) ++ (p ∷ rest)) ≡ true =
      mem-append last (e ∷ es) (p ∷ rest) ∙ ground (arith, last_of-mem e es) in
    let ne = member_ne' d last ((e ∷ es) ++ (p ∷ rest)) dist.0 within in
    (rw ne c.0, cut next p e es rest dist.1 c.1)

module _ (s : System) (p : ℕ) where
  marks-remove :
      (cell : Option ℕ) (u : ℕ)
      → ((remove s cell p).headers u).timer_queued
        ≡ (if p == u then false else (s.headers u).timer_queued)
  marks-remove none u = ground arith
  marks-remove (some q) u = ground arith

  links-remove_head : (u : ℕ) → timer_next_of (remove s none p) u ≡ timer_next_of s u
  links-remove_head u = ground arith

  links-remove :
      (last u : ℕ) → timer_next_of (remove s (some last) p) u ≡ relinked (timer_next_of s) last p u
  links-remove last u = ground arith

  linked-remove :
      (done rest : List ℕ)
      → IsTimed s (done ++ (p ∷ rest))
      → let s' = remove s (cell_after done) p in
        Chain (timer_next_of s') s'.timer_head (done ++ rest)
  linked-remove [] rest inv =
      Chain-ext (timer_next_of s) (timer_next_of (remove s none p)) (timer_next_of s p) rest
        (λ u m. links-remove_head u) inv.linked.1
  linked-remove (d ∷ ds) rest inv =
      let last = last_of d ds in
      let new = relinked (timer_next_of s) last p in
      let s' = remove s (some last) p in
      (
        inv.linked.0,
        rw (links-remove last d) (
            Chain-ext new (timer_next_of s') (new d) (ds ++ rest) (λ u m. links-remove last u)
              (cut (timer_next_of s) p d ds rest inv.distinct inv.linked.1)),
      )

-- Cutting `p` out at the cell before it leaves the list without `p`, and `p` unmarked.
pub remove-IsTimed :
    (s : System) (done : List ℕ) (p : ℕ) (rest : List ℕ)
    → IsTimed s (done ++ (p ∷ rest))
    → IsTimed (remove s (cell_after done) p) (done ++ rest)
remove-IsTimed s done p rest inv =
    let middle = Distinct-middle p done rest inv.distinct in
    record {
      linked = linked-remove s p done rest inv;
      distinct = middle.1;
      marked = λ u.
          marks-remove s p (cell_after done) u
          ∙ ground
              (arith, inv.marked u, mem_middle u p done rest, middle.0, ==_iff p u, ==_iff u p);
    }
