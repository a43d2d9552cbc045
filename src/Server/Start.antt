-- ===== src/Server/Start.antt =====
-- `initConfig`, `init` and `createClient` of src/Server.cpp, without the sockets. `loaded` is what
-- `loadConfiguration` gives, and `pf` the file of entries as it is found.
use cabinet.Base.{
  Bool, Code, Option, Outcome, [], codes, err, exit, false, if◌then◌else◌, none, not, ok, pos, ret,
  same_bytes, some, true, ℤ, ◌+ℤ◌, ◌==ℤ◌, ◌>>=◌,
}
use cabinet.Client.{Client, or_exit_with}
use cabinet.Configuration.{Configuration, conf_int, conf_value}
use cabinet.Node.Dispatch.{new_client}
use cabinet.PersistenceFile.{PersistenceFile}
use cabinet.Server.{Server, import_pf}

-- `allowPF == "true"` behind the `try` block; the port is read for the sockets.
abbrev pub allow_pf : Code × Configuration → Outcome Bool
allow_pf (err, conf) = exit
allow_pf (ok, conf) = do
  port ← or_exit_with (conf_int conf (codes "SERVER_PORT"))
  ret (same_bytes (conf_value conf (codes "SERVER_PF")) (codes "true"))

-- `new DataBase()`, and a `pf` that is a null pointer unless it is required
abbrev pub new_server : PersistenceFile → Bool → Server
new_server pf allow = record { db = []; pf = pf; has_pf = allow }

-- `importPF`, the result of which `init` drops
abbrev pub import_if : Bool → Server → Outcome Server
import_if false s = ret s
import_if true s = import_pf s >>= λ imported. ret imported.2

unfoldable pub start_server : PersistenceFile → Code × Configuration → Outcome Server
unfolding import_pf conf_value same_bytes
start_server pf loaded = allow_pf loaded >>= λ allow. import_if allow (new_server pf allow)

-- `createClient`: the client, or `none` for the null pointer, and the next client number
-- (`clientIdMax`); `accepted` says whether `getConnectFd` gives a connection.
abbrev pub create_server_client : ℤ → ℤ → Bool → ℤ → Option Client × ℤ
create_server_client own_fd listen_fd accepted next =
    if not (listen_fd ==ℤ own_fd)
    then (none, next)
    else if not accepted
    then (none, next)
    else (some (new_client next), next +ℤ pos 1)
