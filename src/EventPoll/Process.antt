-- ===== src/EventPoll/Process.antt =====
-- A turn of `EventPoll::processEvent`, with what its calls of the operating system return.
use cabinet.Base.{
  Bool, IntMap, List, Option, Outcome, [], exit, if◌then◌else◌, length, lookup, ltbℤ, minus_one,
  none, not, pos, ret, some, suc, ℕ, ℤ, ◌&&◌, ◌+◌, ◌==ℤ◌, ◌>>=◌, ◌∷◌,
}
use cabinet.EventPoll.{Epoll}
use cabinet.EventPoll.Loop.{Event, Loop, Methods, Peer, handle_events, read_loop}

abbrev pub buffered : Option Peer → ℕ
buffered none = 0
buffered (some peer) = length peer.stream.input_buf

abbrev pub pending_in : IntMap Peer → List ℤ → ℕ
pending_in clients [] = 0
pending_in clients (id ∷ ids) = suc (buffered (lookup id clients)) + pending_in clients ids

-- What a turn of `processEvent` meets: `cron` and `nextCronTime` of the cabinet, `epoll_wait` with
-- the milliseconds that it took, -1 being `none`, and whether `usleep` succeeds.
pub record Waited : Type 0 where
  pub timeout : ℤ
  pub actual_wait : ℤ
  pub events : Option (List Event)
  pub slept : Bool

-- Whether the rest of the time is slept off.
abbrev pub compensates : Waited → Bool
compensates w =
    not (w.timeout ==ℤ pos 0) && (not (w.timeout ==ℤ minus_one) && ltbℤ w.actual_wait w.timeout)

module _ {K W : Type 0} where
  -- The clients that wait, and the bytes in their buffers
  abbrev pub pending : Loop K W → ℕ
  pending st = pending_in st.clients st.read_list

  unfoldable pub drain : Epoll K → Methods K W → Loop K W → Outcome (Loop K W)
  unfolding read_loop
  drain e ops st = read_loop e ops (suc (pending st)) st

  abbrev pub after_wait :
      Epoll K → Methods K W → Waited → Loop K W → Option (List Event) → Outcome (Loop K W)
  after_wait e ops w st none = exit
  after_wait e ops w st (some []) = ret st
  after_wait e ops w st (some (ev ∷ evs)) =
      if compensates w && not w.slept
      then ret st
      else (handle_events e ops (ev ∷ evs) st >>= drain e ops)

  -- The body of `while (1)` in `processEvent`
  unfoldable pub process_turn :
      Epoll K
      → Methods K W
      → (Loop K W → Outcome (Loop K W))
      → Waited
      → Loop K W
      → Outcome (Loop K W)
  unfolding handle_events drain
  process_turn e ops cron w st = cron st >>= λ st'. after_wait e ops w st' w.events
