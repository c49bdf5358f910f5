-- ===== src/AlertService/Calls/Order.antt =====
-- Which calls `_dispatch_calls` places, and under which label they are counted
-- (microservices/alert_service/alert_service.py).
use mathlib.Core.List.{reverse, reverse_aux}
use intruder_watch.Base.{
  ◌+◌, ◌≡◌, refl, some, List, [], ◌∷◌, ◌++◌, arith, length, inl, inr, Bool-cases, All, map, ◌∙◌,
  sym, append_assoc, ◌≢◌, ap,
}
use intruder_watch.Base.Result.{Result, ok}
use intruder_watch.Base.Action.{seq-ok}
use intruder_watch.Str.{Text, codes, split, strip, truthy, text_eq}
use intruder_watch.Str.Equal.{text_eq_refl, text_eq→≡, text_eq_iff}
use intruder_watch.Str.Decimal.{show}
use intruder_watch.AlertService.Config.{Config}
use intruder_watch.AlertService.Calls.{
  Event, called, sent, failed, recipient_list, stripped, index, phone_id, send_call_alert,
  call_each, dispatch_calls,
}

-- The numbers that were tried, the newest first.
unfoldable pub tried : List Event → List Text
tried [] = []
tried (called r ∷ es) = r ∷ tried es
tried (_ ∷ es) = tried es

-- The labels that were counted, the newest first.
unfoldable pub labels : List Event → List Text
labels [] = []
labels (called r ∷ es) = labels es
labels (sent l ∷ es) = l ∷ labels es
labels (failed l e ∷ es) = l ∷ labels es

module _ (cfg : Config) (create : Text → Result (Unit {0})) where
  -- One call: never an exception, one number tried and one label counted.
  send_call_alert_lem :
      (r : Text) (es : List Event)
      → ((send_call_alert cfg create r es).0 ≡ ok tt)
        × (tried (send_call_alert cfg create r es).1 ≡ r ∷ tried es)
        × (labels (send_call_alert cfg create r es).1 ≡ phone_id cfg r ∷ labels es)
  unfolding send_call_alert tried labels
  send_call_alert_lem r es = ground arith

  call_each_lem :
      (rs : List Text) (es : List Event)
      → ((call_each cfg create rs es).0 ≡ ok tt)
        × (tried (call_each cfg create rs es).1 ≡ reverse_aux (stripped rs) (tried es))
        × (labels (call_each cfg create rs es).1
            ≡ reverse_aux (map (phone_id cfg) (stripped rs)) (labels es))
  unfolding call_each
  call_each_lem [] es = (refl, refl, refl)
  call_each_lem (r ∷ rs) es = elim (Bool-cases (truthy (strip r))) [
    | inl num ↦
        let (fine, t, l) = send_call_alert_lem (strip r) es in
        let es' = (send_call_alert cfg create (strip r) es).1 in
        let (fine', t', l') = call_each_lem rs es' in
        rw
          (
            num,
            seq-ok (send_call_alert cfg create (strip r)) es (call_each cfg create rs) {a = tt}
                {s' = es'} (λ i. (fine i, es')),
          )
          (fine', cc (t, t'), cc (l, l'))
    | inr blank ↦ rw blank (call_each_lem rs es)
  ]

  pub dispatch_calls-calls_any :
      (recipients : Text)
      → let (result, es) = dispatch_calls cfg create recipients [] in
        (result ≡ ok tt)
        × (tried es ≡ reverse (recipient_list recipients))
        × (labels es ≡ reverse (map (phone_id cfg) (recipient_list recipients)))
  unfolding dispatch_calls recipient_list tried labels
  dispatch_calls-calls_any recipients = call_each_lem (split b':' recipients) []

-- The label of a recipient: the number of the first place of the list at which it stands.
abbrev pub IsLabel : List Text → Text → Text → Type 0
IsLabel xs r l =
    (before after : List Text) × (xs ≡ before ++ r ∷ after)
    × All (λ x. x ≢ r) before
    × (l ≡ codes "phone_" ++ show (length before + 1))

-- One label for each of some recipients, in their order.
abbrev pub AreLabels : List Text → List Text → List Text → Type 0
AreLabels xs [] [] = Unit
AreLabels xs [] (l ∷ ls) = ⊥
AreLabels xs (r ∷ rs) [] = ⊥
AreLabels xs (r ∷ rs) (l ∷ ls) = IsLabel xs r l × AreLabels xs rs ls

index-append :
    (pre : List Text) (x : Text) (ys : List Text)
    → (before after : List Text) × (pre ++ x ∷ ys ≡ before ++ x ∷ after)
      × All (λ y. y ≢ x) before
      × (index x (pre ++ x ∷ ys) ≡ some (length before))
unfolding index
index-append [] x ys = ([], ys, refl, tt, rw (text_eq_refl x) refl)
index-append (p ∷ pre) x ys =
    let (before, after, e, first, found) = index-append pre x ys in
    elim (Bool-cases (text_eq p x)) [
      | inl same ↦
          ([], pre ++ x ∷ ys, ap (λ q. q ∷ pre ++ x ∷ ys) (text_eq→≡ p x same), tt, rw same refl)
      | inr other ↦ (
        p ∷ before,
        after,
        ap (◌∷◌ p) e,
        (λ q. cc ((text_eq_iff p x).1 q, other), first),
        rw (other, found) refl,
      )
    ]

module _ (cfg : Config) where
  phone_id-AreLabels :
      (pre ys : List Text)
      → recipient_list cfg.alert_recipients ≡ pre ++ ys
      → AreLabels (recipient_list cfg.alert_recipients) ys (map (phone_id cfg) ys)
  phone_id-AreLabels pre [] h = tt
  phone_id-AreLabels pre (y ∷ ys) h =
      let (before, after, e, first, found) = index-append pre y ys in
      (
        (before, after, h ∙ e, first, unfold phone_id in rw (h, found) refl),
        phone_id-AreLabels (pre ++ y ∷ []) ys (h ∙ sym (append_assoc pre (y ∷ []) ys)),
      )

  -- Every recipient of ALERT_RECIPIENTS is called once, in the order of the list, whether or not
  -- the calls before it fail; the thread ends without an exception. Each call is counted once, in
  -- the same order, under the number of the first place of the list at which the recipient stands.
  pub dispatch_calls-calls :
      (create : Text → Result (Unit {0}))
      → let (result, es) = dispatch_calls cfg create cfg.alert_recipients [] in
        let recipients = recipient_list cfg.alert_recipients in
        (result ≡ ok tt)
        × (tried es ≡ reverse recipients)
        × ((ls : List Text) × (labels es ≡ reverse ls) × AreLabels recipients recipients ls)
  dispatch_calls-calls create =
      let (fine, t, l) = dispatch_calls-calls_any cfg create cfg.alert_recipients in
      let recipients = recipient_list cfg.alert_recipients in
      (fine, t, (map (phone_id cfg) recipients, l, phone_id-AreLabels [] recipients refl))
