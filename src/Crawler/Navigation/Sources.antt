-- ===== src/Crawler/Navigation/Sources.antt =====
-- The discovery source that a target has after merges.
use runlet.Prelude.{
  ◌≡◌, refl, sym, ap, ◌∙◌, Option, none, some, Text, if◌then◌else◌, ltb, arith, text_leb,
}
use runlet.Prelude.Orders.{text_leb-IsTotalOrder}
use runlet.Crawler.Navigation.Merge.{priority, prefer_discovery_source}

abbrev preferred : Text → Text → Text
preferred s t =
    if ltb (priority t) (priority s)
    then t
    else if ltb (priority s) (priority t)
    then s
    else if text_leb s t
    then s
    else t

prefer-some : (s t : Text) → prefer_discovery_source (some s) (some t) ≡ some (preferred s t)
unfolding prefer_discovery_source
prefer-some s t = ground arith

preferred_comm : (s t : Text) → preferred s t ≡ preferred t s
preferred_comm s t =
    let o = text_leb-IsTotalOrder in ground (arith, o.total s t, o.total t s, o.antisym s t)

preferred_assoc : (s t u : Text) → preferred (preferred s t) u ≡ preferred s (preferred t u)
preferred_assoc s t u =
    let o = text_leb-IsTotalOrder in
    ground (
      arith,
      o.total s t,
      o.total t u,
      o.total s u,
      o.antisym s t,
      o.antisym t u,
      o.antisym s u,
      o.trans s t u,
      o.trans u t s,
      o.trans t s u,
      o.trans s u t,
      o.trans u s t,
      o.trans t u s,
    )

-- The order in which duplicates are merged does not matter to the discovery source: the choice between
-- two sources is commutative, and that among three is associative.
pub prefer_discovery_source-comm_assoc :
    (a b c : Option Text)
    → (prefer_discovery_source a b ≡ prefer_discovery_source b a)
      × (prefer_discovery_source (prefer_discovery_source a b) c
          ≡ prefer_discovery_source a (prefer_discovery_source b c))
prefer_discovery_source-comm_assoc a b c = (comm a b, assoc a b c)
  where
    comm : (a b : Option Text) → prefer_discovery_source a b ≡ prefer_discovery_source b a
    comm none none = refl
    comm none (some t) = unfold prefer_discovery_source in refl
    comm (some s) none = unfold prefer_discovery_source in refl
    comm (some s) (some t) = prefer-some s t ∙ ap some (preferred_comm s t) ∙ sym (prefer-some t s)

    assoc :
        (a b c : Option Text)
        → prefer_discovery_source (prefer_discovery_source a b) c
          ≡ prefer_discovery_source a (prefer_discovery_source b c)
    assoc none b c = unfold prefer_discovery_source in refl
    assoc (some s) none c = unfold prefer_discovery_source in refl
    assoc (some s) (some t) none =
        rw (prefer-some s t) (unfold prefer_discovery_source in sym (prefer-some s t))
    assoc (some s) (some t) (some u) =
        rw (prefer-some s t, prefer-some t u)
          (prefer-some (preferred s t) u
            ∙ ap some (preferred_assoc s t u)
            ∙ sym (prefer-some s (preferred t u)))
