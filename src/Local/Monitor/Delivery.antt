-- ===== src/Local/Monitor/Delivery.antt =====
-- What the poll loop of local/main.py sends, against the WAN states that its polls return.
use mathlib.Core.Path.{subst}
use mathlib.Core.List.{append-nil, append_assoc, map-append}
use wan_router_notifications.Common.{◌≡◌, refl, sym, ap, ◌∙◌, false, List, [], ◌∷◌, ◌++◌}
use wan_router_notifications.Local.AlertEngine.{AlertEngine, new_engine, process_wan_state}
use wan_router_notifications.Local.AlertEngine.Edges.{
  Update, run as run_engine, titles, edges, run_alerts_edges,
}
use wan_router_notifications.Local.AlertEngine.Messages.{Router}
use wan_router_notifications.Local.Monitor.{ready, Monitor, Event, step_in, step, run}
use wan_router_notifications.Local.Monitor.Trace.{
  pending, unseen, sent_at, found_at, sent, found, NoneRaise, observed, NoneRaise-head,
}
use wan_router_notifications.Local.Monitor.Updates.{SendsOne, step_in-Explains}

run_engine-append :
    (e : AlertEngine) (us vs : List Update)
    → run_engine e (us ++ vs) ≡ (
        let (e', alerts) = run_engine e us in
        let (e'', more) = run_engine e' vs in (e'', alerts ++ more))
unfolding run_engine
run_engine-append e [] vs = refl
run_engine-append e (u ∷ us) vs =
    let (e', alerts) = process_wan_state u.now e u.state u.all_states in
    let (e'', more) = run_engine e' us in
    let (last, most) = run_engine e'' vs in
    rw (run_engine-append e' us vs) (ap (λ l. (last, l)) (sym (append_assoc alerts more most)))

-- two steps of sending or finding as one
chained :
    {A : Type 0} (a b c p q r s : List A)
    → a ++ p ≡ q ++ r
    → b ++ c ≡ p ++ s
    → (a ++ b) ++ c ≡ q ++ (r ++ s)
chained a b c p q r s e1 e2 =
    append_assoc a b c
    ∙ (ap (λ l. a ++ l) e2
        ∙ (sym (append_assoc a p s) ∙ (ap (λ l. l ++ s) e1 ∙ append_assoc q r s)))

-- The same of a run.
abbrev pub RunExplains : List Event → Monitor → List Update → Type 0
RunExplains es m us =
    ((run es m).engine ≡ (run_engine m.engine us).0)
    × (sent es m ++ pending (run es m).phase ≡ pending m.phase ++ (run_engine m.engine us).1)
    × (observed us ++ unseen (run es m).phase ≡ unseen m.phase ++ found es m)

run-Explains :
    (es : List Event) (m : Monitor)
    → NoneRaise es
    → SendsOne m.phase
    → (us : List Update) × RunExplains es m us
unfolding run step run_engine
run-Explains [] m n one =
    ([], (refl, sym (append-nil (pending m.phase)), sym (append-nil (unseen m.phase))))
run-Explains (e ∷ es) m n one =
    let (first, later) = NoneRaise-head e es n in
    let (us, (h1, h2, h3, one')) = step_in-Explains m.phase e m refl first one in
    let (vs, (k1, k2, k3)) = run-Explains es (step_in m.phase e m) later one' in
    let next = step_in m.phase e m in
    let both = run_engine-append m.engine us vs in
    let after : run_engine next.engine vs ≡ run_engine (run_engine m.engine us).0 vs =
      ap (λ g. run_engine g vs) h1 in
    (
      us ++ vs,
      (
        k1 ∙ (ap (λ x. x.0) after ∙ sym (ap (λ x. x.0) both)),
        chained (sent_at m.phase e) (sent es next) (pending (run es next).phase)
              (pending next.phase) (pending m.phase) (run_engine m.engine us).1
              (run_engine next.engine vs).1 h2 k2
            ∙ ap (λ l. pending m.phase ++ l)
                (ap (λ x. (run_engine m.engine us).1 ++ x.1) after ∙ sym (ap (λ x. x.1) both)),
        ap (λ l. l ++ unseen (run es next).phase) (map-append (λ u. u.state) us vs)
            ∙ chained (observed us) (observed vs) (unseen (run es next).phase) (unseen next.phase)
                (unseen m.phase) (found_at m.phase e m) (found es next) h3 k3,
      ),
    )

-- Where the engine is new and no send is under way, and no send raises anything but a `TelegramError`:
-- whatever else happens, the titles of the alerts whose sends have ended, and of the one whose send is
-- under way, are in order the edges of some updates; the states of these, with those of the last poll
-- that are not looked at yet, are all the states that the polls have returned, in order.
pub sends_edges :
    (es : List Event) (m : Monitor) (router : Router)
    → m.engine ≡ new_engine router
    → m.phase ≡ ready
    → NoneRaise es
    → (us : List Update) × ((titles (sent es m ++ pending (run es m).phase) ≡ edges (λ j. false) us)
        × (observed us ++ unseen (run es m).phase ≡ found es m))
sends_edges es m router fresh start n =
    let (us, (h1, h2, h3)) = run-Explains es m n (subst SendsOne (sym start) tt) in
    let made =
      subst (λ e. sent es m ++ pending (run es m).phase ≡ pending m.phase ++ (run_engine e us).1)
        fresh h2 in
    (
      us,
      (
        ap titles (made ∙ ap (λ p. pending p ++ (run_engine (new_engine router) us).1) start)
            ∙ run_alerts_edges router us,
        h3 ∙ ap (λ p. unseen p ++ found es m) start,
      ),
    )
