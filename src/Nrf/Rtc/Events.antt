-- ===== src/Nrf/Rtc/Events.antt =====
-- The events of the clock's hardware, and the registers that make it call `next_period`.
use embassy.Base.{
  ℕ, ◌+◌, ◌%◌, ◌^◌, ◌<◌, ◌≡◌, inl, inr, Bool, true, false, ◌&&◌, ◌||◌, Option, some, arith, ◌==◌,
  if◌then◌else◌, Bool-cases,
}
use embassy.Time.{Profile}
use embassy.Base.Tables.{put}
use embassy.Nrf.Rtc.{compare_n, ovrflw_bit, Rtc, on_interrupt}
use embassy.Nrf.Rtc.Alarms.{rearmed}
use embassy.Nrf.Rtc.Channels.{is_near, all_rearmed}

-- The counter has become `counter`: an event that is enabled is raised, for an overflow at 0, and for
-- a compare value at that. The register for it has 24 bits.
abbrev pub raised : ℕ → Rtc → Rtc
raised counter r = record r {
  events_ovrflw = r.events_ovrflw || (r.inten ovrflw_bit && counter == 0);
  events_compare = λ n. r.events_compare n || (r.inten (compare_n n) && r.cc n % 2 ^ 24 == counter);
}

abbrev pub compare_pending : ℕ → Rtc → Bool
compare_pending n r = r.events_compare n && r.inten (compare_n n)

-- An event that is raised and enabled interrupts.
abbrev pub pending : Rtc → Bool
pending r =
    (r.events_ovrflw && r.inten ovrflw_bit)
    || (compare_pending 3 r
        || (compare_pending 0 r || (compare_pending 1 r || compare_pending 2 r)))

-- A tick of the clock to a time, with the interrupt that it causes.
unfoldable pub clock_tick : (ℕ → Rtc → Rtc) → Profile → ℕ → Rtc → Option Rtc
unfolding on_interrupt
clock_tick call p time r =
    let r' = raised (time % 2 ^ 24) r in if pending r' then on_interrupt call p r' else some r'

-- The registers are those that `start` wrote, and their events are handled.
pub record IsStarted (r : Rtc) : Type 0 where
  pub half : r.cc 3 ≡ 0x800000
  pub overflows : r.inten ovrflw_bit ≡ true
  pub halves : r.inten (compare_n 3) ≡ true
  pub no_overflow : r.events_ovrflw ≡ false
  pub no_half : r.events_compare 3 ≡ false

-- The registers of an alarm are not among them.
pub IsStarted-written :
    (r : Rtc) (n cc : ℕ) (enabled : Bool) (alarms : _)
    → n < 3
    → IsStarted r
    → IsStarted (record r {
      alarms = alarms;
      inten = put r.inten (compare_n n) enabled;
      cc = put r.cc n cc;
    })
IsStarted-written r n cc enabled alarms h i =
    let a : (1 == n + 16) ≡ false = ground arith in
    let b : (19 == n + 16) ≡ false = ground arith in
    let c : (3 == n) ≡ false = ground arith in
    record {
      half = rw c i.half;
      overflows = rw a i.overflows;
      halves = rw b i.halves;
      no_overflow = i.no_overflow;
      no_half = i.no_half;
    }

pub IsStarted-masked :
    (r : Rtc) (n : ℕ) (enabled : Bool) (alarms : _)
    → n < 3
    → IsStarted r
    → IsStarted (record r { alarms = alarms; inten = put r.inten (compare_n n) enabled })
IsStarted-masked r n enabled alarms h i =
    let a : (1 == n + 16) ≡ false = ground arith in
    let b : (19 == n + 16) ≡ false = ground arith in
    record {
      half = i.half;
      overflows = rw a i.overflows;
      halves = rw b i.halves;
      no_overflow = i.no_overflow;
      no_half = i.no_half;
    }

IsStarted-rearmed : (t n : ℕ) (r : Rtc) → n < 3 → IsStarted r → IsStarted (rearmed t n r)
IsStarted-rearmed t n r h i = elim (Bool-cases (is_near t (r.alarms n).timestamp)) [
  | inl near ↦ rw near (IsStarted-written r n _ true r.alarms h i)
  | inr far ↦ rw far i
]

pub IsStarted-all_rearmed : (t : ℕ) (r : Rtc) → IsStarted r → IsStarted (all_rearmed t r)
IsStarted-all_rearmed t r i =
    let r0 = rearmed t 0 r in
    let r1 = rearmed t 1 r0 in
    IsStarted-rearmed t 2 r1 (omega arith)
      (IsStarted-rearmed t 1 r0 (omega arith) (IsStarted-rearmed t 0 r (omega arith) i))
