-- ===== src/Tests/Pending.antt =====
-- The theorems on pending requests at concrete inputs.
use deno_director.Prelude.{ℕ, ◌≡◌, [], ◌==◌, nat_eq, if◌then◌else◌, none, some, arith}
use deno_director.Prelude.Dict.{get, get-empty}
use deno_director.Requests.{
  PendingRequests, Issued, insert_request, take_request, take_request-insert_request,
}

abbrev largest : ℕ
largest = 0xFFFF_FFFF_FFFF_FFFF

abbrev idle : PendingRequests ℕ
idle = record { next_id = 0; pending = [] }

idle-Issued : Issued idle
idle-Issued id settler e = absurd (let g = get-empty {K = ℕ} {V = ℕ} id in cc)

take_request-insert_request_example :
    (get idle.pending (insert_request idle 5).1 ≡ none)
    × ((id : ℕ)
        → (take_request (insert_request idle 5).0 id).1
          ≡ (if (insert_request idle 5).1 == id then some 5 else get idle.pending id))
    × ((id other : ℕ)
        → (take_request (take_request (insert_request idle 5).0 id).0 other).1
          ≡ (if id == other then none else (take_request (insert_request idle 5).0 other).1))
    × Issued (insert_request idle 5).0
take_request-insert_request_example = take_request-insert_request idle 5 idle-Issued (omega arith)
