-- ===== src/Io/Drain.antt =====
-- embassy/src/io/util/drain.rs: what a poll answers, and when it does not end.
use mathlib.Core.Option
use embassy.Base.{
  ℕ, zero, suc, ◌+◌, ◌<◌, ◌≡◌, refl, ap, ap₂, ◌∙◌, Option, none, some, List, [], ◌∷◌, arith, length,
  drop_all,
}
use embassy.Io.{
  ok, err, Poll, pending, ready, AsyncBufRead, Chunk, run, wait, fail, with_run, Contract, scripted,
}
use embassy.Io.Readers.{drain_pass, drain_from, drain}

-- The bytes that are shown before a poll is not ready or fails; `none` if none ever does.
abbrev pub drained : List Chunk → ℕ → Option (Poll ℕ × List Chunk)
drained [] n = none
drained (run b bs ∷ s) n = drained s (n + length (b ∷ bs))
drained (wait ∷ s) n = some (ready (ok n), s)
drained (fail e ∷ s) n = some (ready (err e), s)

drain_ended : (fuel n : ℕ) → drain_from scripted fuel [] n ≡ none
unfolding drain_from
drain_ended zero n = refl
drain_ended (suc fuel) n = drain_ended fuel (n + 0)

drain_from-scripted :
    (fuel : ℕ) (s : List Chunk) (n : ℕ)
    → length s < fuel
    → drain_from scripted fuel s n ≡ drained s n
unfolding drain_from
drain_from-scripted zero s n h = absurd (omega arith)
drain_from-scripted (suc fuel) [] n h = drain_ended fuel (n + 0)
drain_from-scripted (suc fuel) (wait ∷ s) n h = refl
drain_from-scripted (suc fuel) (fail e ∷ s) n h = refl
drain_from-scripted (suc fuel) (run b bs ∷ s) n h =
    let rbuf = b ∷ bs in
    ap (λ l. drain_from scripted fuel (with_run l s) (n + length rbuf))
      (drop_all (length rbuf) rbuf (omega arith))
    ∙ drain_from-scripted fuel s (n + length rbuf) (omega arith)

module _ {R : Type 0} (rd : AsyncBufRead R) (contract : Contract rd) where
  open contract use {script, fill_shows, fill_keeps, consume_drops}

  abbrev pub drain_on_script : Option (Poll ℕ × R) → Option (Poll ℕ × List Chunk)
  drain_on_script = Option.map (λ o. (o.0, script o.1))

  drain_pass-scripted :
      (rest : R → ℕ → Option (Poll ℕ × R)) (rest' : List Chunk → ℕ → Option (Poll ℕ × List Chunk))
      → ((r : R) (n : ℕ) → drain_on_script (rest r n) ≡ rest' (script r) n)
      → (p : Poll (List ℕ)) (r : R) (n : ℕ)
      → drain_on_script (drain_pass rd rest p r n) ≡ drain_pass scripted rest' p (script r) n
  drain_pass-scripted rest rest' same pending r n = refl
  drain_pass-scripted rest rest' same (ready (err e)) r n = refl
  drain_pass-scripted rest rest' same (ready (ok buf)) r n =
      same (rd.consume r (length buf)) (n + length buf)
      ∙ ap (λ s. rest' s (n + length buf)) (consume_drops r (length buf))

  drain_from-on_script :
      (fuel : ℕ) (r : R) (n : ℕ)
      → drain_on_script (drain_from rd fuel r n) ≡ drain_from scripted fuel (script r) n
  unfolding drain_from
  drain_from-on_script zero r n = refl
  drain_from-on_script (suc fuel) r n =
      let f = rd.poll_fill_buf r in
      let rest' = drain_from scripted fuel in
      drain_pass-scripted (drain_from rd fuel) rest' (drain_from-on_script fuel) f.0 f.1 n
      ∙ ap₂ (λ p s. drain_pass scripted rest' p s n) (fill_shows r) (fill_keeps r)

  -- With fuel above the length of the script, a poll of `Drain` over any lawful reader answers with
  -- the number of bytes shown before the first poll that is not ready, or with the error before that;
  -- where the stream ends without either, no such fuel is enough.
  pub drain-drained :
      (fuel : ℕ) (r : R)
      → length (script r) < fuel
      → drain_on_script (drain rd fuel r) ≡ drained (script r) 0
  unfolding drain
  drain-drained fuel r h = drain_from-on_script fuel r 0 ∙ drain_from-scripted fuel (script r) 0 h
