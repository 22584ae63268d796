-- ===== src/Console/Reads.antt =====
-- apps/web/src/operator/api.ts: `api`, which shares the requests of equal reads.
-- A promise is a number. `finals` holds the keys that the `finally` of each unsettled read closes over.
use Prim.Native.String.{◌++◌ as ◌+s◌}
use montlok_terminal.Prelude.{
  ℕ, ◌+◌, String, Bool, true, false, List, [], none, some, if◌then◌else◌, ◌==◌, nat_eq, string_eq,
}
use montlok_terminal.JsMap.{get, set, delete}
use montlok_terminal.Console.Session.{Shared}

pub record Reads : Type 0 where
  pub pending_reads : List (String × ℕ)
  pub finals : List (ℕ × String)
  pub next_promise : ℕ

-- `${session?.csrf || 'pending'}/${path}`
unfoldable pub read_key : Shared → String → String
read_key s path =
    let csrf : String = elim s.session [ none ↦ "" | some info ↦ info.csrf ] in
    (if csrf == "" then "pending" else csrf) +s "/" +s path

-- A call without a body: the promise that is returned, and whether a request is made for it.
unfoldable pub read_api : Reads → String → Reads × ℕ × Bool
read_api r key = elim (get r.pending_reads key) [
  | some promise ↦ (r, promise, false)
  | none ↦ (
    record r {
      pending_reads = set r.pending_reads key r.next_promise;
      finals = set r.finals r.next_promise key;
      next_promise = r.next_promise + 1;
    },
    r.next_promise,
    true,
  )
]

-- the `finally` of a read
unfoldable pub read_settled : Reads → ℕ → Reads
read_settled r promise = elim (get r.finals promise) [
  | none ↦ r
  | some key ↦ record r {
    finals = delete r.finals promise;
    pending_reads = elim (get r.pending_reads key) [
      | none ↦ r.pending_reads
      | some current ↦ if current == promise then delete r.pending_reads key else r.pending_reads
    ];
  }
]

-- A call with a body clears the reads before its request and, if it is an execution, after it, when
-- the pages are told to refresh.
unfoldable pub write_api : Reads → Reads
write_api r = record r { pending_reads = [] }

unfoldable pub write_settled : Reads → String → Reads × Bool
write_settled r path =
    if path == "execute" then (record r { pending_reads = [] }, true) else (r, false)

pub data Event : Type 0 where
  reads : String → Event
  settles : ℕ → Event
  writes : Event
  written : String → Event

unfoldable pub step : Reads → Event → Reads
step r (reads key) = (read_api r key).0
step r (settles promise) = read_settled r promise
step r writes = write_api r
step r (written path) = (write_settled r path).0

abbrev pub no_reads : Reads
no_reads = record { pending_reads = []; finals = []; next_promise = 0 }
