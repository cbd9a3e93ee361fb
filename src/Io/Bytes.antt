-- ===== src/Io/Bytes.antt =====
-- A script byte by byte, which forgets how the bytes are cut into buffers.
use embassy.Base.{ℕ, ◌≡◌, refl, List, [], ◌∷◌}
use embassy.Io.{Chunk, run, wait, fail, with_run}
use embassy.Io.ErrorKinds.{Error}

pub data Event : Type 0 where
  byte : ℕ → Event
  no_data : Event
  broken : Error → Event

abbrev pub bytes_then : List ℕ → List Event → List Event
bytes_then [] ev = ev
bytes_then (b ∷ bs) ev = byte b ∷ bytes_then bs ev

abbrev pub events : List Chunk → List Event
events [] = []
events (run b bs ∷ s) = bytes_then (b ∷ bs) (events s)
events (wait ∷ s) = no_data ∷ events s
events (fail e ∷ s) = broken e ∷ events s

pub events-with_run :
    (bs : List ℕ) (s : List Chunk) → events (with_run bs s) ≡ bytes_then bs (events s)
events-with_run [] s = refl
events-with_run (b ∷ bs) s = refl
