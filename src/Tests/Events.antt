-- ===== src/Tests/Events.antt =====
-- Runs of an event poll on a kernel that keeps the set of the descriptors it watches.
use cabinet.Base.{
  Bool, Code, [], ap, arith, codes, false, if◌then◌else◌, lookup, not, pos, refl, ret, true, ℤ,
  ◌==ℤ◌, ◌||◌, ◌∷◌, ◌≡◌,
}
use cabinet.Children.{is_one_of}
use cabinet.Client.{normal_client}
use cabinet.EventPoll.{
  Connection, Epoll, EventPoll, add_event, create_file_event, del_event, get_ready_to_send_message,
  read_event, remove_client, send_reply, write_event, wrote,
}
use cabinet.EventPoll.Calls.{events-IsPolled}
use cabinet.EventPoll.Safety.{IsPolled, waits}
use cabinet.ProtocolStream.{ProtocolStream, new_stream}

abbrev pub sample_epoll : Epoll (ℤ → Bool)
sample_epoll = record {
  epoll_ctl = λ op type fd k. elim op [
    | add_event ↦ (not (k fd), λ other. if fd ==ℤ other then true else k other)
    | del_event ↦ (k fd, λ other. if fd ==ℤ other then false else k other)
  ];
  registered = λ fd k. k fd;
  refuses = λ op fd k. false;
  add_returns = λ type fd k free. ap not free;
  add_registers = λ type fd other k free watched. refl;
  del_returns = λ type fd k there. there;
  del_registers = λ type fd other k there watched. refl;
}

-- Descriptor 5 waits to be read, and 3 listens.
abbrev pub sample_poll : EventPoll (ℤ → Bool)
sample_poll = record {
  read_file_event_map = (pos 5, pos 1) ∷ [];
  write_file_event_map = [];
  listen_fd_set = pos 3 ∷ [];
  kernel = λ fd. (pos 5 ==ℤ fd) || (pos 3 ==ℤ fd);
}

pub sample_poll-IsPolled : IsPolled sample_epoll sample_poll
unfolding lookup is_one_of
sample_poll-IsPolled = record {
  polled = λ fd. ground arith;
  apart = λ fd. ground arith;
  listen_apart = λ fd. ground arith;
}

-- The text that waits to be sent is one byte long.
abbrev one_byte : ProtocolStream
one_byte = record (new_stream true false (codes "none")) { output_buf = codes "a" }

abbrev pub client_five : Connection
client_five = record { fd = pos 5; client_id = pos 1 }

abbrev pub client_six : Connection
client_six = record { fd = pos 6; client_id = pos 2 }

events-IsPolled_example :
    ((ep' : EventPoll (ℤ → Bool)) × (get_ready_to_send_message sample_epoll client_five sample_poll
        ≡ ret ep')
      × IsPolled sample_epoll ep'
      × (waits write_event (pos 5) ep' ≡ true)
      × (waits read_event (pos 5) ep' ≡ false))
    × ((code : Code) × (s' : ProtocolStream) × (ep' : EventPoll (ℤ → Bool)) × (send_reply
            sample_epoll normal_client client_five
            (wrote 1)
            one_byte
            sample_poll
          ≡ ret (code, s', ep'))
        × IsPolled sample_epoll ep')
    × ((ep' : EventPoll (ℤ → Bool)) × (remove_client sample_epoll client_five sample_poll ≡ ret ep')
        × IsPolled sample_epoll ep'
        × (ep'.kernel (pos 5) ≡ false))
    × ((ep' : EventPoll (ℤ → Bool)) × (create_file_event sample_epoll client_six read_event
            sample_poll
          ≡ ret ep')
        × IsPolled sample_epoll ep'
        × (waits read_event (pos 6) ep' ≡ true))
events-IsPolled_example =
    events-IsPolled sample_epoll sample_poll sample_poll-IsPolled client_five client_six
      normal_client (wrote 1) one_byte (λ op fd k. refl) (unfold is_one_of in refl) refl
