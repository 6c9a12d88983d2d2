-- ===== src/TestDatabase/Outage.antt =====
-- The proxy that simulates an outage (OutageProxy): its loop that accepts clients, and the switch.
-- A connection is given by the version of the `watch` channel at which it has subscribed; it is
-- told to close as soon as the channel has another version.
use pulse_stream.Common.{
  ℕ, zero, suc, ◌+◌, ◌-◌, ◌≤◌, ◌≡◌, refl, sym, ◌∙◌, Bool, true, false, ◌==◌, if◌then◌else◌, All,
  arith, List, [], ◌∷◌,
}

-- `let_in` holds while the loop has let a client in that has not subscribed yet; `raising` counts
-- the calls of `go_down` that have stored `up` and not yet sent the change.
pub record OutageProxy : Type 0 where
  pub up : Bool
  pub version : ℕ
  pub let_in : Bool
  pub raising : ℕ
  pub links : List ℕ

unfoldable pub start_proxy : OutageProxy
start_proxy = record { up = true; version = 0; let_in = false; raising = 0; links = [] }

-- The two operations of `go_down`.
unfoldable pub switch_off : OutageProxy → OutageProxy
switch_off p = record p { up = false; raising = p.raising + 1 }

unfoldable pub send_modify : OutageProxy → OutageProxy
send_modify p = record p { version = p.version + 1; raising = p.raising - 1 }

unfoldable pub come_up : OutageProxy → OutageProxy
come_up p = record p { up = true }

-- The test of `up` on a new client, which is dropped if the proxy is down.
unfoldable pub accept : OutageProxy → OutageProxy
accept p = if p.up then record p { let_in = true } else p

unfoldable pub subscribe : OutageProxy → OutageProxy
subscribe p = record p { let_in = false; links = p.version ∷ p.links }

unfoldable pub remove_link : ℕ → List ℕ → List ℕ
remove_link n [] = []
remove_link zero (v ∷ links) = links
remove_link (suc n) (v ∷ links) = v ∷ remove_link n links

-- A connection ends: it is told to close, its copying is over, or the server was not reached.
unfoldable pub close : ℕ → OutageProxy → OutageProxy
unfolding remove_link
close n p = record p { links = remove_link n p.links }

-- The loop takes one client after another; the switch is thrown at any time.
pub data ProxyMove (p : OutageProxy) : OutageProxy → Type 0 where
  accepts : p.let_in ≡ false → ProxyMove p (accept p)
  subscribes : p.let_in ≡ true → ProxyMove p (subscribe p)
  goes_down : ProxyMove p (switch_off p)
  sends : 1 ≤ p.raising → ProxyMove p (send_modify p)
  comes_up : ProxyMove p (come_up p)
  closes : (n : ℕ) → ProxyMove p (close n p)

pub data ProxyRun : OutageProxy → Type 0 where
  begin : ProxyRun start_proxy
  next : {p q : OutageProxy} → ProxyRun p → ProxyMove p q → ProxyRun q

-- The connections that are not told to close.
abbrev pub untold : ℕ → List ℕ → ℕ
untold version [] = 0
untold version (v ∷ links) = (if v == version then 1 else 0) + untold version links

abbrev pub waiting_in : OutageProxy → ℕ
waiting_in p = if p.let_in then 1 else 0

untold-next :
    (version : ℕ) (links : List ℕ) → All (λ v. v ≤ version) links → untold (version + 1) links ≡ 0
untold-next version [] a = refl
untold-next version (v ∷ links) a = ground (arith, untold-next version links a.1)

All-later :
    (version : ℕ) (links : List ℕ) → All (λ v. v ≤ version) links → All (λ v. v ≤ version + 1) links
All-later version [] a = tt
All-later version (v ∷ links) a = (omega (arith, a.0), All-later version links a.1)

All-remove_link :
    (version n : ℕ) (links : List ℕ)
    → All (λ v. v ≤ version) links
    → All (λ v. v ≤ version) (remove_link n links)
unfolding remove_link
All-remove_link version n [] a = tt
All-remove_link version zero (v ∷ links) a = a.1
All-remove_link version (suc n) (v ∷ links) a = (a.0, All-remove_link version n links a.1)

untold-remove_link-le :
    (version n : ℕ) (links : List ℕ) → untold version (remove_link n links) ≤ untold version links
unfolding remove_link
untold-remove_link-le version n [] = omega arith
untold-remove_link-le version zero (v ∷ links) = omega arith
untold-remove_link-le version (suc n) (v ∷ links) =
    omega (arith, untold-remove_link-le version n links)

record IsOutage (p : OutageProxy) : Type 0 where
  past : All (λ v. v ≤ p.version) p.links
  few : p.up ≡ false → p.raising ≡ 0 → untold p.version p.links + waiting_in p ≤ 1

accept_lem :
    (p : OutageProxy)
    → ((accept p).up ≡ p.up)
      × ((accept p).version ≡ p.version)
      × ((accept p).links ≡ p.links)
      × ((accept p).raising ≡ p.raising)
unfolding accept
accept_lem p = ground arith

accept_down : (p : OutageProxy) → p.up ≡ false → accept p ≡ p
unfolding accept
accept_down p h = simp h refl

Move-IsOutage : {p q : OutageProxy} → ProxyMove p q → IsOutage p → IsOutage q
unfolding subscribe switch_off send_modify come_up close
Move-IsOutage {p} (accepts free) o =
    let (same_up, same_version, same_links, same_raising) = accept_lem p in
    record {
      past = rw (same_version, same_links) o.past;
      few = λ h k.
          let down = sym same_up ∙ h in rw (accept_down p down) (o.few down (sym same_raising ∙ k));
    }
Move-IsOutage {p} (subscribes busy) o = record {
  past = (omega arith, o.past);
  few = λ h k. ground (arith, o.few h k);
}
Move-IsOutage {p} goes_down o = record { past = o.past; few = λ h k. omega (arith, k) }
Move-IsOutage {p} (sends due) o = record {
  past = All-later p.version p.links o.past;
  few = λ h k. ground (arith, untold-next p.version p.links o.past);
}
Move-IsOutage {p} comes_up o = record { past = o.past; few = λ h k. cc }
Move-IsOutage {p} (closes n) o = record {
  past = All-remove_link p.version n p.links o.past;
  few = λ h k. omega (arith, untold-remove_link-le p.version n p.links, o.few h k);
}

Run-IsOutage : {p : OutageProxy} → ProxyRun p → IsOutage p
unfolding start_proxy
Run-IsOutage begin = record { past = tt; few = λ h k. cc }
Run-IsOutage (next r m) = Move-IsOutage m (Run-IsOutage r)

-- In any run of the loop and the switch, while the proxy is down and each call of `go_down` has
-- sent its change: the connections that are not told to close, and the client that is let in and
-- has not subscribed, are at most one together.
pub outage_bounds :
    {p : OutageProxy}
    → ProxyRun p
    → p.up ≡ false
    → p.raising ≡ 0
    → untold p.version p.links + waiting_in p ≤ 1
outage_bounds r down sent = (Run-IsOutage r).few down sent

-- What happens to the proxy while nobody calls `come_up`.
pub data Downtime (p : OutageProxy) : OutageProxy → Type 0 where
  begins : Downtime p p
  goes_on : {q r : OutageProxy} → Downtime p q → ProxyMove q r → r.up ≡ false → Downtime p r

-- The proxy is down, and no client is let in.
record IsDown (p : OutageProxy) : Type 0 where
  down : p.up ≡ false
  closed : p.let_in ≡ false
  past : All (λ v. v ≤ p.version) p.links
  told : p.raising ≡ 0 → untold p.version p.links ≡ 0

Move-IsDown : {p q : OutageProxy} → ProxyMove p q → q.up ≡ false → IsDown p → IsDown q
unfolding subscribe switch_off send_modify come_up close
Move-IsDown {p} (accepts free) h d = rw (accept_down p d.down) d
Move-IsDown {p} (subscribes busy) h d = cc (busy, d.closed)
Move-IsDown {p} goes_down h d = record {
  down = refl;
  closed = d.closed;
  past = d.past;
  told = λ k. omega (arith, k);
}
Move-IsDown {p} (sends due) h d = record {
  down = d.down;
  closed = d.closed;
  past = All-later p.version p.links d.past;
  told = λ k. untold-next p.version p.links d.past;
}
Move-IsDown {p} comes_up h d = cc h
Move-IsDown {p} (closes n) h d = record {
  down = d.down;
  closed = d.closed;
  past = All-remove_link p.version n p.links d.past;
  told = λ k. omega (arith, untold-remove_link-le p.version n p.links, d.told k);
}

Downtime-IsDown : {p q : OutageProxy} → Downtime p q → IsDown p → IsDown q
Downtime-IsDown begins d = d
Downtime-IsDown (goes_on m mv h) d = Move-IsDown mv h (Downtime-IsDown m d)

-- In any run of the loop and the switch: if the outage begins while the loop is not between its test
-- of `up` and its subscription for a client, then at any point of the outage at which each call of
-- `go_down` has sent its change, every connection that is left is told to close, and no client has
-- been let in.
pub outage_closes :
    {p q : OutageProxy}
    → ProxyRun p
    → p.let_in ≡ false
    → Downtime (switch_off p) q
    → q.raising ≡ 0
    → (untold q.version q.links ≡ 0) × (q.let_in ≡ false)
unfolding switch_off
outage_closes r free m sent =
    let d = Downtime-IsDown m (record {
      down = refl;
      closed = free;
      past = (Run-IsOutage r).past;
      told = λ k. omega (arith, k);
    }) in
    (d.told sent, d.closed)
