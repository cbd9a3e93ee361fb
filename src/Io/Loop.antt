-- ===== src/Io/Loop.antt =====
-- The loop of the polls in embassy/src/io/util/: fill the buffer, return unless that is ready and
-- fine, and do one pass on what is shown.
use mathlib.Core.Option
use embassy.Base.{ℕ, zero, suc, ◌≡◌, refl, ap, ap₂, ◌∙◌, Option, none, some, List}
use embassy.Io.{Result, ok, err, Poll, pending, ready, AsyncBufRead, Chunk, Contract, scripted}

-- What a pass does: it returns before it consumes anything, or it consumes some bytes and goes on
-- or returns.
pub data Step (X O : Type 0) : Type 0 where
  stop : Result O → Step X O
  take_on : ℕ → X → Step X O
  take_last : ℕ → X → Result O → Step X O

module _ {R X O : Type 0} (rd : AsyncBufRead R) where
  -- The end of a pass; `rest` is the loop after it.
  abbrev pub end_pass :
      (R → X → Option (Poll O × R × X)) → Step X O → R → X → Option (Poll O × R × X)
  end_pass rest (stop answer) r x = some (ready answer, r, x)
  end_pass rest (take_on n x') r x = rest (rd.consume r n) x'
  end_pass rest (take_last n x' answer) r x = some (ready answer, rd.consume r n, x')

  -- `ready!(reader.poll_fill_buf(cx))?` and the pass on what is shown.
  abbrev pub settle :
      (R → X → Option (Poll O × R × X))
      → (X → List ℕ → Step X O)
      → Poll (List ℕ)
      → R
      → X
      → Option (Poll O × R × X)
  settle rest pass pending r x = some (pending, r, x)
  settle rest pass (ready (err e)) r x = some (ready (err e), r, x)
  settle rest pass (ready (ok buf)) r x = end_pass rest (pass x buf) r x

  -- The loop; `none` is out of fuel.
  unfoldable pub poll_loop : (X → List ℕ → Step X O) → ℕ → R → X → Option (Poll O × R × X)
  poll_loop pass zero r x = none
  poll_loop pass (suc fuel) r x =
      let (p, r') = rd.poll_fill_buf r in settle (poll_loop pass fuel) pass p r' x

module _ {R X O : Type 0} (rd : AsyncBufRead R) (contract : Contract rd) where
  open contract use {script, fill_shows, fill_keeps, consume_drops}

  abbrev pub on_script : Option (Poll O × R × X) → Option (Poll O × List Chunk × X)
  on_script = Option.map (λ o. (o.0, script o.1, o.2))

  module _ (rest : R → X → Option (Poll O × R × X))
      (rest' : List Chunk → X → Option (Poll O × List Chunk × X))
      (same : (r : R) (x : X) → on_script (rest r x) ≡ rest' (script r) x) where
    end_pass-scripted :
        (w : Step X O) (r : R) (x : X)
        → on_script (end_pass rd rest w r x) ≡ end_pass scripted rest' w (script r) x
    end_pass-scripted (stop answer) r x = refl
    end_pass-scripted (take_on n x') r x =
        same (rd.consume r n) x' ∙ ap (λ s. rest' s x') (consume_drops r n)
    end_pass-scripted (take_last n x' answer) r x =
        ap (λ s. some (ready answer, s, x')) (consume_drops r n)

    settle-scripted :
        (pass : X → List ℕ → Step X O) (p : Poll (List ℕ)) (r : R) (x : X)
        → on_script (settle rd rest pass p r x) ≡ settle scripted rest' pass p (script r) x
    settle-scripted pass pending r x = refl
    settle-scripted pass (ready (err e)) r x = refl
    settle-scripted pass (ready (ok buf)) r x = end_pass-scripted (pass x buf) r x

  -- The loop over a lawful reader is the loop over its script.
  pub poll_loop-scripted :
      (pass : X → List ℕ → Step X O) (fuel : ℕ) (r : R) (x : X)
      → on_script (poll_loop rd pass fuel r x) ≡ poll_loop scripted pass fuel (script r) x
  unfolding poll_loop
  poll_loop-scripted pass zero r x = refl
  poll_loop-scripted pass (suc fuel) r x =
      let f = rd.poll_fill_buf r in
      let rest' = poll_loop scripted pass fuel in
      settle-scripted (poll_loop rd pass fuel) rest' (poll_loop-scripted pass fuel) pass f.0 f.1 x
      ∙ ap₂ (λ p s. settle scripted rest' pass p s x) (fill_shows r) (fill_keeps r)
