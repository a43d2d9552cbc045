-- ===== src/Client.antt =====
-- src/Client.h, src/Client.cpp and src/ClusterClient.h: what the cluster knows of a connection, and
-- what it writes to it. The send buffer only grows while a command runs, so a command's effect on it
-- is the text that it appends.
pub mod Replies
use cabinet.Base.{
  Bool, Bytes, List, Option, Outcome, [], codes, exit, false, get_elem?, if◌then◌else◌, none, ret,
  some, true, undefined, ℕ, ℤ, ◌>>=◌, ◌∷◌,
}
use cabinet.Number.{stoi, stol}
use cabinet.ProtocolStream.{
  ProtocolStream, append_command_type, append_reply_body, init_reply_head, new_stream,
}

-- `Client::category`
pub data Category : Type 0 where
  normal_client local_pf_client cluster_client server_client : Category

pub record Client : Type 0 where
  pub client_id : ℤ
  -- -1 for a connection that is no sibling's
  pub cluster_id : ℤ
  pub category : Category
  -- `getReceiveArgv()` and `getCurCommandBuf()` of its stream, once a command is complete
  pub argv : List Bytes
  pub cur_command_buf : Bytes

-- A text appended to the send buffer of a client, which then waits to be writable.
pub record Sent : Type 0 where
  pub receiver : ℤ
  pub text : Bytes

unfoldable pub append_parts : List Bytes → ProtocolStream → ProtocolStream
append_parts [] s = s
append_parts (part ∷ parts) s = append_parts parts (append_reply_body part s)

abbrev pub empty_stream : ProtocolStream
empty_stream = new_stream true false (codes "none")

abbrev pub is_local_pf : Category → Bool
is_local_pf local_pf_client = true
is_local_pf _ = false

-- `initReplyHead(argc)`, `appendReplyType(type)` and an `appendReplyBody` for each part; a local
-- client has no reply.
unfoldable pub reply : Client → ℤ → ℕ → List Bytes → List Sent
unfolding append_parts init_reply_head append_command_type append_reply_body
reply client argc type parts =
    if is_local_pf client.category
    then []
    else record {
      receiver = client.client_id;
      text =
          (append_parts parts
            (append_command_type type (init_reply_head argc empty_stream))).output_buf;
    }
      ∷ []

-- The same with no `appendReplyType`.
unfoldable pub reply_untyped : Client → ℤ → List Bytes → List Sent
unfolding append_parts init_reply_head append_reply_body
reply_untyped client argc parts =
    if is_local_pf client.category
    then []
    else record {
      receiver = client.client_id;
      text = (append_parts parts (init_reply_head argc empty_stream)).output_buf;
    }
      ∷ []

-- `argv[i]` of a vector: outside of it, C++ says nothing.
abbrev pub arg : List Bytes → ℕ → Outcome Bytes
arg argv i = elim (get_elem? argv i) [ none ↦ undefined | some part ↦ ret part ]

-- `std::stol(argv[i])` and `std::stoi(argv[i])` in a `try` block whose handler calls `exit(1)`
abbrev pub or_exit_with {ℓ} : {A : Type ℓ} → Option A → Outcome A
or_exit_with none = exit
or_exit_with (some a) = ret a

abbrev pub long_arg : List Bytes → ℕ → Outcome ℤ
long_arg argv i = arg argv i >>= λ part. or_exit_with (stol part)

abbrev pub int_arg : List Bytes → ℕ → Outcome ℤ
int_arg argv i = arg argv i >>= λ part. or_exit_with (stoi part)
