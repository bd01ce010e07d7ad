-- ===== src/Control/Limits/Runs.antt =====
-- control/src/worker.ts: how many messages of an address pass within a window.
use mesh_talk.Common.{
  ltb, All, ℕ, ◌+◌, ◌-◌, ◌≤◌, ◌<◌, ◌≡◌, refl, ◌==◌, beq-cases, sym, ap, ◌∙◌, subst, false, List, [],
  ◌∷◌, some, Text, inl, inr, arith, text_eq, Bool-cases, nat_eq, if◌then◌else◌,
}
use mesh_talk.Common.Dict.{get, get-put_self, get-put}
use mesh_talk.Common.Exec.{Result, ok, err}
use mesh_talk.Control.State.{Socket, Field, RateLimit, ControlRoom, Platform, ControlError}
use mesh_talk.Control.Limits.{Budget, budget_of, open_ip_window, count_ip_message, check_rate_limit}
use mesh_talk.Control.Close.{handle_close}
use mesh_talk.Control.Limits.Kept.{close-IsSame}
use mesh_talk.Control.Limits.Windows.{
  counted, ip_counted, over_client, over_ip, both_counted, check_rate_limit-eq, used, limit_of,
  same_budget, used-count, used-le_limit, window_kept, ip_kept, open_window_kept,
}

-- a message that is checked: its socket, its type and the time
pub record Arrival : Type 0 where
  pub socket : Socket
  pub type : Field
  pub time : ℕ

abbrev pub at_time : Platform → ℕ → Platform
at_time p t = record p { now = t }

-- whether a check lets a message of address `ip` pass that counts for the budget
abbrev pub pass_of : Text → Budget → Arrival → ControlRoom → Result ControlError (Unit {0}) → ℕ
pass_of ip b a r (ok _) =
    if (r.objects a.socket).ip == ip then same_budget b (budget_of a.type) else 0
pass_of ip b a r (err x) = 0

-- a check, or the end of a connection
pub data Event : Type 0 where
  checked : Arrival → Event
  closed : Socket → Event

-- how many messages of the address and the budget pass in a run of events, where a run goes on
-- after a rejection, and the messages may be of any address
unfoldable pub passed : Platform → Text → Budget → List Event → ControlRoom → ℕ
passed p ip b [] r = 0
passed p ip b (checked a ∷ events) r =
    let (o, r') = check_rate_limit (at_time p a.time) a.socket a.type r in
    pass_of ip b a r o + passed p ip b events r'
passed p ip b (closed s ∷ events) r = passed p ip b events (handle_close p s r).1

-- the event's message, if it is one, arrives in the window that began at `since`
abbrev pub IsTimely : ℕ → Event → Type 0
IsTimely since (checked a) = a.time - since < 60_000
IsTimely since (closed s) = Unit

-- What a check leaves of the address's limit `l`: the window, and a count that holds what has
-- passed and is within the limit if the message has passed.
record IsCounted (ip : Text) (b : Budget) (l : RateLimit) (pass : ℕ) (r : ControlRoom)
    : Type 0 where
  pub limit : RateLimit
  pub found : get ip r.rate_limits_by_ip ≡ some limit
  pub window : limit.window_started_at ≡ l.window_started_at
  pub grown : used b l + pass ≤ used b limit
  pub fits : 0 < pass → used b limit ≤ limit_of b

module _ (p : Platform) (ip : Text) (b : Budget) (a : Arrival) (r : ControlRoom) (l : RateLimit)
    (found : get ip r.rate_limits_by_ip ≡ some l)
    (timely : a.time - l.window_started_at < 60_000) where
  abbrev now : Platform
  now = at_time p a.time

  abbrev key : Text
  key = (counted now a.socket a.type r).ip

  abbrev left : ControlRoom
  left = both_counted now a.socket a.type r

  same_key : key ≡ (r.objects a.socket).ip
  same_key = ip_kept (budget_of a.type) a.time (r.objects a.socket)

  -- the limit is that of another address, or the check has not come to it
  apart-IsCounted :
      (r' : ControlRoom) → get ip r'.rate_limits_by_ip ≡ some l → IsCounted ip b l 0 r'
  apart-IsCounted r' e = record {
    limit = l;
    found = e;
    window = refl;
    grown = omega arith;
    fits = λ h. absurd (omega (arith, h));
  }

  other-found : (key == ip) ≡ false → get ip left.rate_limits_by_ip ≡ some l
  other-found e =
      ground
        (arith, get-put key ip (ip_counted now a.socket a.type r) r.rate_limits_by_ip, e, found)

  ip_counted-eq :
      key ≡ ip → ip_counted now a.socket a.type r ≡ count_ip_message (budget_of a.type) l
  ip_counted-eq e =
      ap (λ o. count_ip_message (budget_of a.type) (open_ip_window a.time o))
        (ap (λ k. get k r.rate_limits_by_ip) e ∙ found)
      ∙ ap (count_ip_message (budget_of a.type)) (open_window_kept a.time l timely)

  own-IsCounted :
      (pass : ℕ)
      → key ≡ ip
      → pass ≤ same_budget b (budget_of a.type)
      → (0 < pass → over_ip now a.socket a.type r ≡ false)
      → IsCounted ip b l pass left
  own-IsCounted pass e small fits = record {
    limit = count_ip_message (budget_of a.type) l;
    found =
        subst (λ k. get k left.rate_limits_by_ip ≡ some (count_ip_message (budget_of a.type) l)) e
          (get-put_self key (ip_counted now a.socket a.type r) r.rate_limits_by_ip
            ∙ ap some (ip_counted-eq e));
    window = window_kept (budget_of a.type) l;
    grown = omega (arith, small, used-count b (budget_of a.type) l);
    fits = λ h. used-le_limit b _ (rw (← ip_counted-eq e) (fits h));
  }

  pass-le :
      (o : Result ControlError (Unit {0})) → pass_of ip b a r o ≤ same_budget b (budget_of a.type)
  pass-le (ok t) = ground arith
  pass-le (err x) = omega arith

  pass-none : (o : Result ControlError (Unit {0})) → (key == ip) ≡ false → pass_of ip b a r o ≡ 0
  pass-none (ok t) e = ground (arith, e, ap (λ k. k == ip) same_key)
  pass-none (err x) e = refl

  -- a check of any address, with any outcome
  check-IsCounted :
      IsCounted ip b l
        (pass_of ip b a r (check_rate_limit now a.socket a.type r).0)
        (check_rate_limit now a.socket a.type r).1
  check-IsCounted =
      rw (check_rate_limit-eq now a.socket a.type r)
        (elim (Bool-cases (over_client now a.socket a.type r)) [
          | inl c ↦ rw c (apart-IsCounted _ found)
          | inr c ↦ elim (beq-cases key ip) [
            | inl (t, e) ↦ elim (Bool-cases (over_ip now a.socket a.type r)) [
              | inl i ↦ rw (c, i) (own-IsCounted 0 e (omega arith) (λ h. absurd (omega (arith, h))))
              | inr i ↦ rw (c, i) (own-IsCounted _ e (pass-le (ok tt)) (λ h. i))
            ]
            | inr f ↦ elim (Bool-cases (over_ip now a.socket a.type r)) [
              | inl i ↦ rw (c, i) (apart-IsCounted left (other-found f))
              | inr i ↦
                  rw (c, i)
                    (subst (λ n. IsCounted ip b l n left) (sym (pass-none (ok tt) f))
                      (apart-IsCounted left (other-found f)))
            ]
          ]
        ])

-- In a run of checks and ends of connections, the checks of any address and with any outcome: if
-- the messages arrive within the window of an address's limit, and one of this address passes,
-- then those that pass are, with the count before the run, at most the limit of their budget. They
-- are counted over all connections of the address; a check that fails ends nothing.
pub address_budget :
    (p : Platform) (ip : Text) (b : Budget) (events : List Event) (r : ControlRoom) (l : RateLimit)
    → get ip r.rate_limits_by_ip ≡ some l
    → All (IsTimely l.window_started_at) events
    → 0 < passed p ip b events r
    → used b l + passed p ip b events r ≤ limit_of b
unfolding passed
address_budget p ip b [] r l found timely some_pass = absurd (omega (arith, some_pass))
address_budget p ip b (checked a ∷ events) r l found (t, ts) some_pass =
    let now = at_time p a.time in
    let o = check_rate_limit now a.socket a.type r in
    let c = check-IsCounted p ip b a r l found t in
    let pass = pass_of ip b a r o.0 in
    let later = passed p ip b events o.1 in
    let ts' = subst (λ w. All (IsTimely w) events) (sym c.window) ts in
    elim (Bool-cases (ltb 0 later)) [
      | inl e ↦
          omega (
            arith,
            address_budget p ip b events o.1 c.limit c.found ts' (ground (arith, e)),
            c.grown,
          )
      | inr e ↦
          let none_later : later ≡ 0 = ground (arith, e) in
          omega (arith, c.grown, c.fits (omega (arith, some_pass, none_later)), none_later)
    ]
address_budget p ip b (closed s ∷ events) r l found (t, ts) some_pass =
    let same = (close-IsSame r.rate_limits_by_ip p s).at r refl in
    address_budget p ip b events (handle_close p s r).1 l (ap (get ip) same ∙ found) ts some_pass
