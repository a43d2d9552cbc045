-- ===== src/EventPoll.antt =====
-- src/EventPoll.h and src/EventPoll.cpp, and the methods of src/Client.cpp that use them: which
-- connections wait to be read or to be written. A client stands here for its descriptor and its
-- number. The kernel's `epoll_ctl` is a parameter: an interface with what its manual says of it.
pub mod Safety
pub mod Calls
pub mod Commands
pub mod Loop
pub mod Batch
pub mod Handlers
pub mod Held
pub mod Listen
pub mod Lives
pub mod Moves
pub mod Orderly
pub mod Process
pub mod Queue
pub mod Lighter
pub mod Reads
pub mod Ready
pub mod Ends
pub mod Turns
use cabinet.Base.{
  Bool, Bytes, Code, IntMap, List, Outcome, [], drop, erase, err, exit, false, if◌then◌else◌,
  insert, length, lookup, not, ok, ret, true, ℕ, ℤ, ◌==ℤ◌, ◌==◌, ◌>>=◌, ◌∷◌, ◌≡◌,
}
use cabinet.Children.{is_one_of}
use cabinet.Client.{Category, is_local_pf}
use cabinet.ProtocolStream.{ProtocolStream, clear, fill_receive_buf}
use cabinet.Siblings.{is_some}

-- `EPOLL_CTL_ADD` and `EPOLL_CTL_DEL`
pub data Operation : Type 0 where
  add_event del_event : Operation

-- `READ_EVENT` and `WRITE_EVENT`
pub data EventType : Type 0 where
  read_event write_event : EventType

-- `epoll_ctl` on the kernel's states `K`: whether it returns 0, and the state after it. Of the errors in
-- its manual, a descriptor that is registered can not be added (`EEXIST`), and one that is not can not
-- be deleted (`ENOENT`); `refuses` says whether the kernel has another one for the call: `EBADF`,
-- `EINVAL`, `ELOOP`, `ENOMEM`, `ENOSPC` or `EPERM`.
pub record Epoll (K : Type 0) : Type 0 where
  pub epoll_ctl : Operation → EventType → ℤ → K → Bool × K
  pub registered : ℤ → K → Bool
  pub refuses : Operation → ℤ → K → Bool
  pub add_returns :
      (type : EventType) (fd : ℤ) (k : K)
      → registered fd k ≡ false
      → (epoll_ctl add_event type fd k).0 ≡ not (refuses add_event fd k)
  pub add_registers :
      (type : EventType) (fd other : ℤ) (k : K)
      → registered fd k ≡ false
      → refuses add_event fd k ≡ false
      → registered other (epoll_ctl add_event type fd k).1
        ≡ (if fd ==ℤ other then true else registered other k)
  pub del_returns :
      (type : EventType) (fd : ℤ) (k : K)
      → registered fd k ≡ true
      → (epoll_ctl del_event type fd k).0 ≡ not (refuses del_event fd k)
  pub del_registers :
      (type : EventType) (fd other : ℤ) (k : K)
      → registered fd k ≡ true
      → refuses del_event fd k ≡ false
      → registered other (epoll_ctl del_event type fd k).1
        ≡ (if fd ==ℤ other then false else registered other k)

-- The kernel has none of the other errors for a call: the descriptors are open and of a kind that can
-- be watched, and there is memory and room for a watch.
abbrev pub Serves : {K : Type 0} → Epoll K → Type 0
Serves {K} e = (op : Operation) (fd : ℤ) (k : K) → e.refuses op fd k ≡ false

-- A client, by its descriptor and its number.
pub record Connection : Type 0 where
  pub fd : ℤ
  pub client_id : ℤ

-- The state of an event poll, with the kernel's.
pub record EventPoll (K : Type 0) : Type 0 where
  pub read_file_event_map : IntMap ℤ
  pub write_file_event_map : IntMap ℤ
  pub listen_fd_set : List ℤ
  pub kernel : K

-- How a `write` or a `read` of the socket ends; an empty text is the end of the stream.
pub data Written : Type 0 where
  wrote : ℕ → Written
  write_would_block write_failed : Written

pub data ReadResult : Type 0 where
  read_bytes : Bytes → ReadResult
  read_would_block read_failed : ReadResult

-- `eraseSendBuf(0, nWrite)`
abbrev pub erase_send_buf : ℕ → ProtocolStream → ProtocolStream
erase_send_buf n s = record s { output_buf = drop n s.output_buf }

module _ {K : Type 0} where
  -- The map that `eventType` selects.
  abbrev pub map_of : EventType → EventPoll K → IntMap ℤ
  map_of read_event ep = ep.read_file_event_map
  map_of write_event ep = ep.write_file_event_map

  abbrev pub with_map : EventType → IntMap ℤ → EventPoll K → EventPoll K
  with_map read_event m ep = record ep { read_file_event_map = m }
  with_map write_event m ep = record ep { write_file_event_map = m }

  -- An error of `epoll_ctl` ends the process.
  abbrev pub after_ctl : EventPoll K → Bool × K → Outcome (EventPoll K)
  after_ctl ep (false, k) = exit
  after_ctl ep (true, k) = ret (record ep { kernel = k })

  -- `fileEventOperation`
  pub file_event_operation :
      Epoll K → ℤ → EventType → Operation → EventPoll K → Outcome (EventPoll K)
  file_event_operation e fd type op ep = after_ctl ep (e.epoll_ctl op type fd ep.kernel)

  pub create_file_event : Epoll K → Connection → EventType → EventPoll K → Outcome (EventPoll K)
  unfolding file_event_operation
  create_file_event e client type ep =
      if is_some (lookup client.fd (map_of type ep))
      then ret ep
      else (file_event_operation e client.fd type add_event ep >>= λ ep'.
          ret (with_map type (insert client.fd client.client_id (map_of type ep')) ep'))

  pub remove_file_event : Epoll K → Connection → EventType → EventPoll K → Outcome (EventPoll K)
  unfolding file_event_operation
  remove_file_event e client type ep =
      if not (is_some (lookup client.fd (map_of type ep)))
      then ret ep
      else (file_event_operation e client.fd type del_event ep >>= λ ep'.
          ret (with_map type (erase client.fd (map_of type ep')) ep'))

  unfoldable pub poll_listen_fd : Epoll K → ℤ → EventPoll K → Outcome (Code × EventPoll K)
  unfolding file_event_operation is_one_of
  poll_listen_fd e fd ep =
      if is_one_of fd ep.listen_fd_set
      then ret (err, ep)
      else (file_event_operation e fd read_event add_event
            (record ep { listen_fd_set = fd ∷ ep.listen_fd_set })
          >>= λ ep'. ret (ok, ep'))

  -- `Client::getReadyToSendMessage`
  unfoldable pub get_ready_to_send_message :
      Epoll K → Connection → EventPoll K → Outcome (EventPoll K)
  unfolding remove_file_event create_file_event
  get_ready_to_send_message e client ep =
      remove_file_event e client read_event ep >>= create_file_event e client write_event

  -- `Client::sendReply` from the end of `write` on; `resetClient` is `clear`.
  pub after_write :
      Epoll K
      → Connection
      → Written
      → ProtocolStream
      → EventPoll K
      → Outcome (Code × ProtocolStream × EventPoll K)
  unfolding remove_file_event create_file_event clear
  after_write e client write_would_block s ep = ret (ok, s, ep)
  after_write e client write_failed s ep = ret (err, s, ep)
  after_write e client (wrote n) s ep =
      let s' = erase_send_buf n s in
      if length s'.output_buf == 0
      then (remove_file_event e client write_event ep
          >>= create_file_event e client read_event
          >>= λ ep'. ret (ok, clear s', ep'))
      else ret (ok, s', ep)

  pub send_reply :
      Epoll K
      → Category
      → Connection
      → Written
      → ProtocolStream
      → EventPoll K
      → Outcome (Code × ProtocolStream × EventPoll K)
  unfolding after_write
  send_reply e category client written s ep =
      if is_local_pf category
      then ret (ok, s, ep)
      else if length s.output_buf == 0
      then ret (ok, s, ep)
      else after_write e client written s ep

  -- `deleteClient` behind the call of the cabinet
  pub remove_client : Epoll K → Connection → EventPoll K → Outcome (EventPoll K)
  unfolding remove_file_event
  remove_client e client ep =
      remove_file_event e client read_event ep >>= remove_file_event e client write_event

-- `Client::fillReceiveBuf`
abbrev pub read_into : ReadResult → ProtocolStream → Code × ProtocolStream
read_into read_would_block s = (ok, s)
read_into read_failed s = (err, s)
read_into (read_bytes []) s = (err, s)
read_into (read_bytes (c ∷ cs)) s = (ok, fill_receive_buf (c ∷ cs) s)
