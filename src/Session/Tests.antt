-- ===== src/Session/Tests.antt =====
-- A process that is given an endpoint and looks a number up.
use yeti_pg_ext.Base.{
  Bytes, ℕ, Bool, false, true, [], ◌∷◌, Option, none, some, ◌≡◌, ◌≢◌, refl, arith, inr,
}
use yeti_pg_ext.Base.Outcome.{ok}
use yeti_pg_ext.Cache.Table.{HashTable}
use yeti_pg_ext.Cache.Assoc.{assoc}
use yeti_pg_ext.Cache.Readable.{Bytes-discrete}
use yeti_pg_ext.Cache.{Entry, find}
use yeti_pg_ext.Resolver.Message.{prepare_msg, parse_msg}
use yeti_pg_ext.Resolver.Endpoints.{get_endpoint_at_index}
use yeti_pg_ext.Resolver.Resolve.{
  got, datagram, attempts, move_current, turn, gen_request_id, send_msg, past_eintr, wait_answer,
  take_answer, receive, resolve, World, Call, Answer,
}
use yeti_pg_ext.Lookup
use yeti_pg_ext.Lookup.{Ending, gave, crashed, cnam_result, tagged_result, error_row_result}
use yeti_pg_ext.Lookup.Laws.{mocked_cnam, mocked_row, mocked_error_row}
use yeti_pg_ext.Lookup.Mocked.{mocked_or}
use yeti_pg_ext.Tbf.{Key, Bucket, Floats, Hooks, no_hook}
use yeti_pg_ext.Tbf.Requests.{Key-discrete}
use yeti_pg_ext.Resolver.Endpoints
use yeti_pg_ext.Resolver.Uri.{parse_addr}
use yeti_pg_ext.Extension.{Process, pg_init, pg_fini}
use yeti_pg_ext.Session.Unload.{pg_fini-Reach}
use yeti_pg_ext.Session.{
  lnp_endpoints_cache_set, lnp_endpoints_set, lnp_resolve_tagged, lnp_resolve_cnam,
  lnp_resolve_tagged_with_error, Command, text_value, error_row_value, looked_up, Statement, Value,
  null_value, row_value, loaded, run, Reach, here, ran, elsewhere,
}
use yeti_pg_ext.Session.Safety.{run-ne-crashed}
use yeti_pg_ext.Session.Mocked
use yeti_pg_ext.Session.Mocked.{mocks, question, ask-mocks}

abbrev cached : HashTable Bytes Entry
cached = assoc Bytes-discrete

abbrev buckets : HashTable Key Bucket
buckets = assoc Key-discrete

abbrev no_rates : Floats ℕ
no_rates = record {
  is_zero = λ rate. true;
  doubled = λ rate. 0;
  add_tokens = λ rate tokens from now. tokens;
}

abbrev never : buckets.T → Bool
never t = false

abbrev any_address : Bytes → Option ℕ
any_address host = some 1

abbrev no_hooks : Hooks
no_hooks = record {
  shmem_request_hook = no_hook;
  shmem_startup_hook = no_hook;
  prev_shmem_request_hook = no_hook;
  prev_shmem_startup_hook = no_hook;
}

abbrev Backend : Type 0
Backend = Process cached buckets

abbrev start : Backend
start = loaded no_rates cached buckets never any_address true 4 no_hooks

abbrev host : Bytes
host = b'h' ∷ []

-- An endpoint, and then a question to it that it answers.
abbrev set_host : Statement ℕ
set_host = record {
  command = lnp_endpoints_set (some host ∷ none ∷ []);
  world = record { sends = []; polls = []; recvs = []; rand = 9; sent = [] };
  got_socket = true;
}

abbrev ask : Statement ℕ
ask = record {
  command = lnp_resolve_tagged 7 (b'4' ∷ b'2' ∷ []);
  world = record {
    sends = got 9 ∷ [];
    polls = got 1 ∷ [];
    recvs = datagram (9 ∷ 0 ∷ 0 ∷ 0 ∷ 0 ∷ 2 ∷ 2 ∷ b'4' ∷ b'3' ∷ []) ∷ [];
    rand = 9;
    sent = [];
  };
  got_socket = true;
}

abbrev after : Statement ℕ → Backend → Ending Value × Backend
after s p = run no_rates cached buckets never any_address p s

ran_set_host : (after set_host start).0 ≡ gave null_value
unfolding run Endpoints.lnp_endpoints_set pg_init parse_addr
ran_set_host = refl

abbrev hosted : Backend
hosted = (after set_host start).1

hosted-Reach : Reach no_rates cached buckets never any_address start hosted
hosted-Reach =
    ran set_host (after set_host start).0 here (omega arith) refl (rw ran_set_host (λ e. cc))

run-ne-crashed_example : (run no_rates cached buckets never any_address hosted ask).0 ≢ crashed
run-ne-crashed_example =
    run-ne-crashed no_rates cached buckets never any_address true 4 no_hooks hosted ask hosted-Reach
      (omega arith) (omega arith)

ran_ask :
    (after ask hosted).0
    ≡ gave (row_value (some (record { lrn = some (b'4' ∷ b'3' ∷ []); tag = none })))
unfolding run Endpoints.lnp_endpoints_set pg_init parse_addr Lookup.lnp_resolve_tagged resolve
    attempts get_endpoint_at_index move_current turn prepare_msg gen_request_id send_msg past_eintr
    wait_answer take_answer receive parse_msg
ran_ask = refl

-- A mocked answer, which a lookup is then given.
abbrev set_mock : Statement ℕ
set_mock = record set_host { command = lnp_endpoints_cache_set host (b'o' ∷ b'k' ∷ []) true }

abbrev mocking : Backend
mocking = (after set_mock hosted).1

mocking-Reach : Reach no_rates cached buckets never any_address start mocking
mocking-Reach = ran set_mock (after set_mock hosted).0 hosted-Reach (omega arith) refl (
    run-ne-crashed no_rates cached buckets never any_address true 4 no_hooks hosted set_mock
      hosted-Reach (omega arith) (inr (omega arith)))

abbrev mocked_host : Option (Bytes × Bool)
mocked_host = (mocks no_rates cached buckets never any_address mocking-Reach).answer host

abbrev network : World
network = ask.world

abbrev look : Command ℕ → Ending Value × Backend
look c = Mocked.ask no_rates cached buckets never any_address c network true mocking

abbrev asked_of : ℕ → Answer × Call
asked_of type =
    resolve (question no_rates cached buckets never any_address mocking network type 7 host)

abbrev told {ℓ} : {A : Type ℓ} → (A → Value) → Ending A × Call → Ending Value × Backend
told f o = looked_up no_rates cached buckets never any_address mocking f o

ask-mocks_example :
    (look (lnp_resolve_cnam 7 host)
      ≡ mocked_or mocked_host
          (λ b s. (gave (text_value (mocked_cnam cached b s)), mocking))
          (told text_value (cnam_result (asked_of 1).0, (asked_of 1).1)))
    × (look (lnp_resolve_tagged 7 host)
        ≡ mocked_or mocked_host
            (λ b s. (gave (row_value (mocked_row cached b s)), mocking))
            (told row_value (tagged_result (asked_of 0).0, (asked_of 0).1)))
    × (look (lnp_resolve_tagged_with_error 7 host)
        ≡ mocked_or mocked_host
            (λ b s. (gave (error_row_value (mocked_error_row cached b s)), mocking))
            (told error_row_value (error_row_result (asked_of 0).0, (asked_of 0).1)))
unfolding mocking-Reach hosted-Reach
ask-mocks_example =
    ask-mocks no_rates cached buckets never any_address true 4 no_hooks mocking mocking-Reach
      network true 7 host ((tt, tt), ((refl, omega arith), inr (omega arith), refl, omega arith))
      (refl, omega arith)

-- It with its memory, an open socket and a cached answer.
abbrev attached : Backend
attached = record mocking { tbf = some buckets.create }

pg_fini-Reach_example :
    (last : Backend) × (pg_fini cached buckets attached ≡ ok last)
    × (last.resolver.socket_open ≡ false)
    × (find cached last.cache host ≡ none)
    × (last.hooks.shmem_request_hook ≡ no_hook)
    × (last.hooks.shmem_startup_hook ≡ no_hook)
pg_fini-Reach_example =
    pg_fini-Reach no_rates cached buckets never any_address true 4 no_hooks attached host
      (elsewhere (some buckets.create) mocking-Reach refl) refl
