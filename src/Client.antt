-- ===== src/Client.antt =====
-- src/network/TCPClient.cpp, src/network/TCPClient.h and the connector that it uses
-- (src/network/TCPConnector.cpp). The functors that they give to the loop are data. `none` is
-- undefined behaviour, as in Connection.
pub mod Order
pub mod Again
pub mod Connector
use tiny_game_server.Base.{
  ℕ, suc, ◌-◌, List, [], ◌∷◌, ◌++◌, Option, none, some, Bool, true, false, ◌==◌, if◌then◌else◌, map,
  ◌>>=◌,
}
use tiny_game_server.Buffer.{Buffer}
use tiny_game_server.Connection.{
  Connection, Callback, Task, new_connection, minus_one, send, close, run_task, sends, closes,
}
use tiny_game_server.Connection
use tiny_game_server.Table.{Table, find, assign, erase}

-- The functors: of the connector, which announces the connection; of `HandleNewConn`, which starts
-- it; and those of a connection, named by its number.
pub data Job : Type 0 where
  announces starts : Job
  works : ℕ → Task → Job

-- The connections that were created are numbered from 0 on.
pub record Client : Type 0 where
  pub addr : List ℕ
  pub fd : Option ℕ  -- the connector's socket, where it is not -1
  pub sockets : List (Option ℕ)  -- the socket that each connection was given, where it is not -1
  pub objects : Table Connection  -- the connections that are not destroyed
  pub held : Option ℕ  -- what `connection_` points to
  pub next : ℕ
  pub pending : List Job

unfoldable pub new_client : List ℕ → Client
new_client addr = record {
  addr = addr;
  fd = none;
  sockets = [];
  objects = [];
  held = none;
  next = 0;
  pending = [];
}

-- `Connect`, with the socket that `socket` returns, where it is not -1; nothing that fails is looked at.
unfoldable pub connect : Option ℕ → Client → Client
connect fd c = record c { fd = fd; pending = c.pending ++ (announces ∷ []) }

-- A connection that lost an owner is destroyed with its last.
abbrev pub put_back : ℕ → Connection → Table Connection → Table Connection
put_back n conn t = if conn.owners == 0 then erase n t else assign n (some conn) t

-- `connection_` gives up what it points to.
unfoldable pub give_up : Option ℕ → Table Connection → Table Connection
give_up none t = t
give_up (some n) t = elim (find n t) [
  | some (some conn) ↦ put_back n (record conn { owners = conn.owners - 1 }) t
  | _ ↦ t
]

-- `HandleNewConn`, in the functor of the connector: the new connection takes the place of the one
-- that `connection_` points to.
unfoldable pub handle_new_conn : (ℕ → ℕ → ℕ) → Option ℕ → Client → Client
unfolding new_connection give_up
handle_new_conn junk fd c = record c {
  sockets = c.sockets ++ (fd ∷ []);
  objects = assign c.next (some (new_connection junk c.addr minus_one)) (give_up c.held c.objects);
  held = some c.next;
  next = suc c.next;
  pending = c.pending ++ (starts ∷ []);
}

-- A connection that is not destroyed.
unfoldable pub object : ℕ → Client → Option Connection
object n c = find n c.objects >>= (λ conn. conn)

-- What `connection_` points to, with its number.
unfoldable pub pointee : Client → Option (ℕ × Connection)
unfolding object
pointee c = c.held >>= (λ n. object n c >>= (λ conn. some (n, conn)))

-- `Send` and `Disconnect` follow the pointer.
unfoldable pub send_buffer : Buffer → Client → Option Client
unfolding pointee
send_buffer buf c = do
  (n, conn) ← pointee c
  some (record c { pending = c.pending ++ map (works n) (send conn buf) })

unfoldable pub disconnect : Client → Option Client
unfolding pointee
disconnect c = do
  (n, conn) ← pointee c
  let (kept, tasks) = close conn
  some (record c {
    objects = assign n (some kept) c.objects;
    pending = c.pending ++ map (works n) tasks;
  })

-- The close callback, on the connection that closes: `connection_` gives up what it points to, which
-- may be this connection. The callback of the user is not called.
unfoldable pub release : Bool → Callback
release held = some (λ c. some (record c { owners = if held then c.owners - 1 else c.owners }))

abbrev pub points_to : Option ℕ → ℕ → Bool
points_to none n = false
points_to (some m) n = m == n

-- A functor in the loop, with the answer of the kernel to a write. That of `Send` uses the connection
-- without owning it.
unfoldable pub run_job : (ℕ → ℕ → ℕ) → Callback → Job → Option ℕ → Client → Option Client
unfolding handle_new_conn pointee release object give_up
run_job junk conn_cb announces answer c = some (record (handle_new_conn junk c.fd c) { fd = none })
run_job junk conn_cb starts answer c = do
  (n, conn) ← pointee c
  started ← Connection.start conn_cb conn
  some (record c { objects = assign n (some started) c.objects })
run_job junk conn_cb (works n (sends buf)) answer c = do
  conn ← object n c
  after ← run_task (release false) conn (sends buf) answer
  some (record c { objects = assign n (some after) c.objects })
run_job junk conn_cb (works n closes) answer c = do
  conn ← object n c
  let own = points_to c.held n
  after ← run_task (release own) conn closes answer
  some (record c {
    objects = assign n (some after) (if own then c.objects else give_up c.held c.objects);
    held = none;
  })

-- The functors that the loop took together, in their order; the answers are to their writes.
unfoldable pub run_all : (ℕ → ℕ → ℕ) → Callback → (ℕ → Option ℕ) → List Job → Client → Option Client
run_all junk conn_cb answers [] c = some c
run_all junk conn_cb answers (job ∷ jobs) c =
    run_job junk conn_cb job (answers 0) c >>= run_all junk conn_cb (λ i. answers (suc i)) jobs

-- They are destroyed when all of them have run; that of `Close` owns its connection.
unfoldable pub retire_all : List Job → Client → Client
retire_all [] c = c
retire_all (announces ∷ jobs) c = retire_all jobs c
retire_all (starts ∷ jobs) c = retire_all jobs c
retire_all (works n (sends buf) ∷ jobs) c = retire_all jobs c
retire_all (works n closes ∷ jobs) c =
    retire_all jobs (record c { objects = give_up (some n) c.objects })

-- `ProcessPendingFunctors`, once it has taken the functors, and all of it.
unfoldable pub serve : (ℕ → ℕ → ℕ) → Callback → (ℕ → Option ℕ) → List Job → Client → Option Client
unfolding run_all retire_all
serve junk conn_cb answers jobs c =
    run_all junk conn_cb answers jobs c >>= (λ d. some (retire_all jobs d))

unfoldable pub process : (ℕ → ℕ → ℕ) → Callback → (ℕ → Option ℕ) → Client → Option Client
unfolding serve
process junk conn_cb answers c = serve junk conn_cb answers c.pending (record c { pending = [] })

-- The destructors of the client and of its connector: the socket that is closed, and the connections
-- that are left.
unfoldable pub destroy : Client → Option ℕ × Table Connection
unfolding give_up
destroy c = (c.fd, give_up c.held c.objects)
