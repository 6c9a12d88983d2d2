-- ===== src/Tests/Support.antt =====
-- Instances for the test support: two calls of one processor, and a disposable database.
use text.Mathlib.Text.{◌==◌ as str_eq}
use pulse_stream.Common.{
  ◌≤◌, ◌≡◌, ◌≢◌, false, refl, max, true, all, Text, String, codes, take, if◌then◌else◌, Option,
  none, some, List, arith, [], ◌∷◌, ◌++◌, utf8, utf8_char, text_eq,
}
use pulse_stream.Event.{EventId}
use pulse_stream.Config.{strip_prefix}
use pulse_stream.Gated.{
  Inner, Point, counting, observing, noting, inserting, starting, signalling, build, process,
  increment, has_id,
}
use pulse_stream.Gated.Calls.{Call, tally, greatest, Move, Run}
use pulse_stream.Gated.Counts.{AreExact, counters_exact}
use pulse_stream.Gated.Peak.{observes, max_observed_exact}
use pulse_stream.Gated.Overlaps.{is_holding, overlaps_exact}
use pulse_stream.TestDatabase.{
  TestDatabase, is_plain, ends_with, guard_test_database_name, split_first, split_query,
  split_database_name, named, create_empty, test_database_url_var,
}
use pulse_stream.TestDatabase.Proxy.{target, with_port, proxied_url}
use pulse_stream.TestDatabase.Proxy.Addresses.{proxied_leads}
use pulse_stream.TestDatabase.Urls.{split_database_name_again}
use pulse_stream.TestDatabase.Outage.{
  OutageProxy, start_proxy, accept, subscribe, switch_off, send_modify, ProxyMove, ProxyRun, untold,
  outage_closes, Downtime,
}
use pulse_stream.TestDatabase.Names.{create_empty_confined}

abbrev event : EventId
event = record { uuid = 7 }

abbrev other : EventId
other = record { uuid = 8 }

abbrev at : EventId → Point → Call
at id p = record { id = id; point = p }

-- The processor after each operation of the first call, and after the first one of the second.
abbrev counted : Inner
counted = record (build none) { current = 1 }

abbrev observed : Inner
observed = record counted { max_observed = 1 }

abbrev noted : Inner
noted = record observed { seen = event ∷ [] }

abbrev active : Inner
active = record noted { active = event ∷ [] }

abbrev running : Inner
running = record active { started = 1 }

abbrev two : Inner
two = record running { current = 2 }

abbrev calls : List Call
calls = at other (observing 2) ∷ at event signalling ∷ []

counts : process event counting (build none) ≡ some (observing 1, counted)
unfolding process build increment
counts = refl

observes_one : process event (observing 1) counted ≡ some (noting, observed)
unfolding process build
observes_one = refl

notes : process event noting observed ≡ some (inserting, noted)
unfolding process build
notes = refl

inserts : process event inserting noted ≡ some (starting, active)
unfolding process build has_id
inserts = refl

starts : process event starting active ≡ some (signalling, running)
unfolding process build increment
starts = refl

counts_too : process other counting running ≡ some (observing 2, two)
unfolding process build increment
counts_too = refl

-- The first call has begun to process its event; the second has raised `current`.
two-calls : Run none two calls 2
two-calls =
    let r0 : Run none (build none) (at event counting ∷ []) 0 =
      Run.next Run.here (Move.begins event) in
    let r1 : Run none counted (at event (observing 1) ∷ []) 1 =
      Run.next r0 (Move.advances 0 (at event counting) (observing 1) counted refl counts) in
    let r2 : Run none observed (at event noting ∷ []) 1 =
      Run.next r1 (Move.advances 0 (at event (observing 1)) noting observed refl observes_one) in
    let r3 : Run none noted (at event inserting ∷ []) 1 =
      Run.next r2 (Move.advances 0 (at event noting) inserting noted refl notes) in
    let r4 : Run none active (at event starting ∷ []) 1 =
      Run.next r3 (Move.advances 0 (at event inserting) starting active refl inserts) in
    let r5 : Run none running (at event signalling ∷ []) 1 =
      Run.next r4 (Move.advances 0 (at event starting) signalling running refl starts) in
    let r6 : Run none running (at other counting ∷ at event signalling ∷ []) 1 =
      Run.next r5 (Move.begins other) in
    Run.next r6 (Move.advances 0 (at other counting) (observing 2) two refl counts_too)

counters_exact_example : AreExact two calls
counters_exact_example = counters_exact two-calls (omega arith)

max_observed_exact_example : max two.max_observed (greatest observes calls) ≡ 2
max_observed_exact_example = max_observed_exact two-calls (omega arith)

no-overlap : two.overlaps ≡ 0
unfolding build
no-overlap = refl

overlaps_exact_example : tally (is_holding event) calls ≤ 1
overlaps_exact_example = overlaps_exact event two-calls (omega arith) no-overlap refl

abbrev env : String → Option Text
env var =
    if str_eq var "PULSESTREAM_TEST_DATABASE_URL"
    then some (codes "postgres://u@h:1/ps_test?x=1")
    else none

abbrev disposable : TestDatabase
disposable = record {
  url = codes "postgres://u@h:1/ps_test_00112233aabb?x=1";
  admin_url = codes "postgres://u@h:1/ps_test?x=1";
  name = codes "ps_test_00112233aabb";
}

is-created : create_empty (λ t. t) env (codes "00112233aabbccdd") ≡ some disposable
unfolding create_empty named guard_test_database_name is_plain ends_with split_database_name
    split_first split_query strip_prefix utf8 utf8_char text_eq
is-created = refl

plain-hex : all is_plain (codes "00112233aabbccdd") ≡ true
unfolding is_plain
plain-hex = refl

create_empty_confined_example :
    (server base query front : Text) × (env test_database_url_var ≡ some disposable.admin_url)
    × (split_database_name disposable.admin_url ≡ some (server, base, query))
    × (split_database_name disposable.url ≡ some (server, disposable.name, query))
    × (base ≡ front ++ codes "_test")
    × (disposable.name ≡ base ++ (codes "_" ++ take 12 (codes "00112233aabbccdd")))
    × (disposable.name ≢ base)
    × (all is_plain disposable.name ≡ true)
create_empty_confined_example =
    create_empty_confined (λ t. t) env (codes "00112233aabbccdd") disposable plain-hex is-created

abbrev ps_url : Text
ps_url = codes "postgres://u@h:1/ps_test?x=1"

ps-split :
    split_database_name ps_url ≡ some (codes "postgres://u@h:1/", codes "ps_test", codes "?x=1")
unfolding split_database_name split_first split_query strip_prefix
ps-split = refl

plain-name : all is_plain (codes "ps_test_1") ≡ true
unfolding is_plain
plain-name = refl

split_database_name_again_example :
    (ps_url ≡ codes "postgres://u@h:1/" ++ (codes "ps_test" ++ codes "?x=1"))
    × (split_database_name (codes "postgres://u@h:1/" ++ (codes "ps_test_1" ++ codes "?x=1"))
        ≡ some (codes "postgres://u@h:1/", codes "ps_test_1", codes "?x=1"))
split_database_name_again_example =
    split_database_name_again ps_url (codes "postgres://u@h:1/") (codes "ps_test") (codes "?x=1")
      (codes "ps_test_1") ps-split plain-name

proxied_leads_example :
    (scheme user host proxied : Text) × (codes "postgres://u@h:1/"
      ≡ scheme ++ (codes "://" ++ ((user ++ host) ++ codes "/")))
    × (target ps_url ≡ some (with_port host))
    × (proxied_url (codes "127.0.0.1:4000") ps_url ≡ some proxied)
    × (split_database_name proxied
        ≡ some (
          scheme ++ (codes "://" ++ ((user ++ codes "127.0.0.1:4000") ++ codes "/")),
          codes "ps_test",
          codes "?x=1",
        ))
    × (target proxied ≡ some (codes "127.0.0.1:4000"))
proxied_leads_example =
    proxied_leads (codes "127.0.0.1:4000") ps_url (codes "postgres://u@h:1/") (codes "ps_test")
      (codes "?x=1") ps-split refl refl refl

-- A client is let in, and subscribes after the outage has begun.
abbrev let_in : OutageProxy
let_in = record start_proxy { let_in = true }

abbrev off : OutageProxy
off = record start_proxy { up = false; let_in = true; raising = 1 }

abbrev down : OutageProxy
down = record start_proxy { up = false; version = 1; let_in = true }

abbrev still_open : OutageProxy
still_open = record start_proxy { up = false; version = 1; links = 1 ∷ [] }

late-client : ProxyRun still_open
unfolding start_proxy accept subscribe switch_off send_modify
late-client =
    let r1 : ProxyRun let_in = ProxyRun.next ProxyRun.begin (ProxyMove.accepts refl) in
    let r2 : ProxyRun off = ProxyRun.next r1 ProxyMove.goes_down in
    let r3 : ProxyRun down = ProxyRun.next r2 (ProxyMove.sends (omega arith)) in
    ProxyRun.next r3 (ProxyMove.subscribes refl)

-- A client is connected when the outage begins.
abbrev connected : OutageProxy
connected = record start_proxy { links = 0 ∷ [] }

abbrev outage : OutageProxy
outage = record start_proxy { up = false; version = 1; links = 0 ∷ [] }

one-client : ProxyRun connected
unfolding start_proxy accept subscribe
one-client =
    let r1 : ProxyRun let_in = ProxyRun.next ProxyRun.begin (ProxyMove.accepts refl) in
    ProxyRun.next r1 (ProxyMove.subscribes refl)

change-sent : Downtime (switch_off connected) outage
unfolding start_proxy switch_off send_modify
change-sent = Downtime.goes_on Downtime.begins (ProxyMove.sends (omega arith)) refl

not-let_in : connected.let_in ≡ false
unfolding start_proxy
not-let_in = refl

none-raising : outage.raising ≡ 0
unfolding start_proxy
none-raising = refl

outage_closes_example : (untold outage.version outage.links ≡ 0) × (outage.let_in ≡ false)
outage_closes_example = outage_closes one-client not-let_in change-sent none-raising
