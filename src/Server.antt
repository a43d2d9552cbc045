-- ===== src/Server.antt =====
-- src/ServerClient.cpp and `importPF` of src/Server.cpp: a server runs a command and, where
-- persistence is required, first appends a writing command to its file; at its start it runs the
-- commands of the file.
pub mod Replay
pub mod Restart
pub mod Refused
pub mod Start
pub mod Methods
pub mod Serving
use cabinet.Base.{
  Bool, Code, List, Outcome, abort, codes, err, exit, false, if◌then◌else◌, minus_one, not, ok, pos,
  ret, true, undefined, ◌&&◌, ◌>>=◌, ◌>>◌,
}
use cabinet.Client.{Client, Sent, arg, is_local_pf, local_pf_client}
use cabinet.Database.{DataBase, ServerCommand, need_pf, run_command, select_command}
use cabinet.Entry.{Entry, empty_entry}
use cabinet.PersistenceFile.{
  PersistenceFile, Visit, append_to_pf, break, continue, read_while, reset_file_stream, rounds,
}
use cabinet.PersistenceFile.Refinement.{stream}
use cabinet.ProtocolStream.{
  ProtocolStream, clear, fill_receive_buf, new_stream, resolve_receive_buf,
}

pub record Server : Type 0 where
  pub db : DataBase
  pub pf : PersistenceFile
  -- whether `pf` is no null pointer
  pub has_pf : Bool

-- `Entry entry(getCurCommandBuf()); pf->appendToPF(entry);`, the result of which is dropped
abbrev pub keep_command : Client → PersistenceFile → PersistenceFile
keep_command client pf =
    (append_to_pf (record empty_entry { content = client.cur_command_buf }) pf).1

abbrev pub keeps : Client → Server → ServerCommand → Bool
keeps client s command = not (is_local_pf client.category) && s.has_pf && need_pf command

-- `ServerClient::executeCommand`
unfoldable pub execute_command : Client → Server → Outcome (Code × Server × List Sent)
unfolding select_command run_command append_to_pf
execute_command client s = do
  name ← arg client.argv 0
  let command = select_command name
  let pf = if keeps client s command then keep_command client s.pf else s.pf
  let (code, db, sent) = run_command command client client.argv s.db
  ret (code, record s { db = db; pf = pf }, sent)

-- How far the import is: its result so far, the stream of its client, and the server.
abbrev pub Import : Type 0
Import = Outcome (Code × ProtocolStream × Server)

-- `pFClient`, once its stream holds a command
abbrev pub pf_client : ProtocolStream → Client
pf_client stream = record {
  client_id = pos 0;
  cluster_id = minus_one;
  category = local_pf_client;
  argv = stream.argv;
  cur_command_buf = stream.cur_command_buf;
}

-- The parts of a round of `importPF`.
abbrev pub after_execute : ProtocolStream → Code × Server × List Sent → Import
after_execute stream (err, s, sent) = ret (err, stream, s)
after_execute stream (ok, s, sent) = ret (ok, clear stream, s)

abbrev pub execute_resolved : Server → Code × ProtocolStream → Import
execute_resolved s (err, stream) = ret (err, stream, s)
execute_resolved s (ok, stream) =
    if stream.receive_complete
    then (execute_command (pf_client stream) s >>= after_execute stream)
    else ret (ok, clear stream, s)

unfoldable pub import_entry : Entry → ProtocolStream → Server → Import
unfolding resolve_receive_buf fill_receive_buf execute_command clear
import_entry e stream s =
    resolve_receive_buf (fill_receive_buf e.content stream) >>= execute_resolved s

-- The loop goes on after a round that ends with `CABINET_OK`.
abbrev pub go_on_if_ok : Import → Visit Import
go_on_if_ok (ret (ok, stream, s)) = continue (ret (ok, stream, s))
go_on_if_ok (ret (err, stream, s)) = break (ret (err, stream, s))
go_on_if_ok exit = break exit
go_on_if_ok abort = break abort
go_on_if_ok undefined = break undefined

unfoldable pub visit_entry : Entry → Import → Visit Import
unfolding import_entry
visit_entry e (ret (code, stream, s)) = go_on_if_ok (import_entry e stream s)
visit_entry e exit = break exit
visit_entry e abort = break abort
visit_entry e undefined = break undefined

-- `importPF`; its client is made with `ProtocolStream(true)`.
unfoldable pub import_pf : Server → Import
unfolding read_while visit_entry reset_file_stream
import_pf s =
    let file = (reset_file_stream s.pf).1 in
    (read_while (rounds file) visit_entry file empty_entry
      (ret (ok, new_stream true false (codes "none"), s))).1
