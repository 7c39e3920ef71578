-- ===== src/Config/Selection.antt =====
-- Which transport a configuration selects (`Config::hub_selection` of zeronym/shim/src/config.rs).
use zero_shim.Prelude.{
  ◌≡◌, refl, sym, ap, ◌≢◌, ◌↔◌, Bool, true, false, Option, none, some, List, [], ◌∷◌, arith, Result,
  ok, err, All,
}
use zero_shim.Text.{Text}
use zero_shim.Config.{
  HubSelection, forward_only, http, nym, ConfigError, both_transports, Config, addresses,
  is_nym_address, among, check, checked, select, hub_selection,
}

-- No entry is one of those before it.
abbrev pub AreNew : List Text → List Text → Type 0
AreNew seen [] = Unit {0}
AreNew seen (a ∷ as') = (among a seen ≡ false) × AreNew (a ∷ seen) as'

abbrev pub AreAddresses : List Text → Type 0
AreAddresses as' = All (λ a. is_nym_address a ≡ true) as'

check_exact :
    (seen as' : List Text) → (check seen as' ≡ ok tt) ↔ (AreAddresses as' × AreNew seen as')
unfolding check
check_exact seen [] = ((λ h. (tt, tt)), (λ h. refl))
check_exact seen (a ∷ as') =
    let ih = check_exact (a ∷ seen) as' in ((λ h. ground (arith, ih)), (λ h. ground (arith, ih)))

nym_exact :
    (as' bs : List Text) (a : Text) (require : Bool)
    → (select none (a ∷ as') require ≡ ok (nym bs))
      ↔ ((bs ≡ a ∷ as') × AreAddresses (a ∷ as') × AreNew [] (a ∷ as'))
unfolding select
nym_exact as' bs a require = by (check [] (a ∷ as')) (check_exact [] (a ∷ as'))
  where
    by :
        (r : Result ConfigError (Unit {0}))
        → ((r ≡ ok tt) ↔ (AreAddresses (a ∷ as') × AreNew [] (a ∷ as')))
        → (checked (a ∷ as') r ≡ ok (nym bs))
          ↔ ((bs ≡ a ∷ as') × AreAddresses (a ∷ as') × AreNew [] (a ∷ as'))
    by (err e) h =
        unfold checked in
        ((λ x. absurd (ground arith)), (λ x. absurd (ground (arith, h.1 (x.1, x.2)))))
    by (ok d) h =
        unfold checked in
        ((λ x. let k = h.0 refl in (ground arith, k.0, k.1)), (λ x. ap (λ l. ok (nym l)) (sym x.0)))

-- What each selection, and the error on two transports, says of a hub, the addresses that are left
-- and the requirement of diversion.
abbrev pub Selects : Option Text → List Text → Bool → Result ConfigError HubSelection → Type 0
Selects hub as' require r =
    ((bs : List Text)
      → (r ≡ ok (nym bs))
        ↔ ((hub ≡ none) × (as' ≢ []) × (bs ≡ as') × AreAddresses as' × AreNew [] as'))
    × ((addr : Text) → (r ≡ ok (http addr)) ↔ ((hub ≡ some addr) × (as' ≡ [])))
    × ((r ≡ ok forward_only) ↔ ((hub ≡ none) × (as' ≡ []) × (require ≡ false)))
    × ((r ≡ err both_transports) ↔ ((hub ≢ none) × (as' ≢ [])))

check_not_both : (seen as' : List Text) → check seen as' ≢ err both_transports
unfolding check
check_not_both seen [] = λ h. absurd (ground arith)
check_not_both seen (a ∷ as') = λ h. absurd (ground (arith, check_not_both (a ∷ seen) as'))

checked_only :
    (as' : List Text) (r : Result ConfigError (Unit {0}))
    → r ≢ err both_transports
    → ((addr : Text) → checked as' r ≢ ok (http addr))
      × (checked as' r ≢ ok forward_only)
      × (checked as' r ≢ err both_transports)
unfolding checked
checked_only as' (ok d) h = ((λ x e. ground arith), (λ e. ground arith), (λ e. ground arith))
checked_only as' (err d) h = ((λ x e. ground arith), (λ e. ground arith), (λ e. ground (arith, h)))

select-Selects :
    (hub : Option Text) (as' : List Text) (require : Bool)
    → Selects hub as' require (select hub as' require)
unfolding select
select-Selects (some a) (b ∷ bs) require = (
  (λ x. ((λ e. absurd (ground arith)), (λ e. absurd (ground arith)))),
  (λ x. ((λ e. absurd (ground arith)), (λ e. absurd (ground arith)))),
  ((λ e. absurd (ground arith)), (λ e. absurd (ground arith))),
  ((λ e. ((λ f. ground arith), (λ f. ground arith))), (λ e. refl)),
)
select-Selects (some a) [] require = (
  (λ x. ((λ e. absurd (ground arith)), (λ e. absurd (ground arith)))),
  (λ x. ((λ e. ground arith), (λ e. ground arith))),
  ((λ e. absurd (ground arith)), (λ e. absurd (ground arith))),
  ((λ e. absurd (ground arith)), (λ e. absurd (e.1 refl))),
)
select-Selects none [] true = (
  (λ x. ((λ e. absurd (ground arith)), (λ e. absurd (e.1 refl)))),
  (λ x. ((λ e. absurd (ground arith)), (λ e. absurd (ground arith)))),
  ((λ e. absurd (ground arith)), (λ e. absurd (ground arith))),
  ((λ e. absurd (ground arith)), (λ e. absurd (e.1 refl))),
)
select-Selects none [] false = (
  (λ x. ((λ e. absurd (ground arith)), (λ e. absurd (e.1 refl)))),
  (λ x. ((λ e. absurd (ground arith)), (λ e. absurd (ground arith)))),
  ((λ e. (refl, refl, refl)), (λ e. refl)),
  ((λ e. absurd (ground arith)), (λ e. absurd (e.1 refl))),
)
select-Selects none (a ∷ as') require =
    let (h, f, b) = checked_only (a ∷ as') (check [] (a ∷ as')) (check_not_both [] (a ∷ as')) in
    (
      (λ x.
          let n = nym_exact as' x a require in
          (
            (λ e. let m = n.0 e in (refl, (λ z. ground arith), m.0, m.1, m.2)),
            (λ e. n.1 (e.2, e.3, e.4)),
          )),
      (λ x. ((λ e. absurd (h x e)), (λ e. absurd (ground arith)))),
      ((λ e. absurd (f e)), (λ e. absurd (ground arith))),
      ((λ e. absurd (b e)), (λ e. absurd (e.0 refl))),
    )

-- A configuration selects the mixnet exactly if it sets no clearnet hub and has addresses left
-- after trimming, all well formed and no two the same, and the selection is those in their order;
-- the clearnet hub exactly if it sets one and has no addresses left; forwarding alone exactly if it
-- has neither and does not require diversion. It is refused for two transports exactly if it sets
-- both.
pub hub_selection_exact :
    (c : Config) → Selects c.hub (addresses c.hub_nym) c.require_diversion (hub_selection c)
hub_selection_exact c =
    unfold hub_selection in select-Selects c.hub (addresses c.hub_nym) c.require_diversion
