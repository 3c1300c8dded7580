-- ===== src/EndpointSelector/Selection.antt =====
-- Which endpoint SelectReflector of src/voip/src/domain/voip_endpoint_selector.cpp picks.
use vianium_voip.Common.{
  ◌≢◌, ◌≡◌, refl, ap, ◌⊎◌, inl, inr, List, [], ◌∷◌, ◌++◌, Bool, true, false, ◌&&◌, none, some, All,
  Bool-cases,
}
use vianium_voip.Domain.{VoipEndpoint}
use vianium_voip.EndpointSelector.{
  found, not_found, has_ipv4, is_usable_reflector_endpoint, first_such, first_choice,
  select_reflector,
}

-- `e` is the first of `es` that passes the test.
abbrev pub IsFirst : (VoipEndpoint → Bool) → List VoipEndpoint → VoipEndpoint → Type 0
IsFirst test es e =
    (before : List VoipEndpoint) × (after : List VoipEndpoint) × (es ≡ before ++ (e ∷ after))
    × All (λ x. test x ≡ false) before
    × (test e ≡ true)

abbrev pub NoneSuch : (VoipEndpoint → Bool) → List VoipEndpoint → Type 0
NoneSuch test es = All (λ x. test x ≡ false) es

first_such_lem :
    (test : VoipEndpoint → Bool) (es : List VoipEndpoint)
    → ((e : VoipEndpoint) × (first_such test es ≡ some e) × IsFirst test es e)
      ⊎ ((first_such test es ≡ none) × NoneSuch test es)
unfolding first_such
first_such_lem test [] = inr (refl, tt)
first_such_lem test (x ∷ es) = elim (Bool-cases (test x)) [
  | inl h ↦ inl (x, rw h, ([], es, refl, tt, h))
  | inr h ↦ elim (first_such_lem test es) [
    | inl (e, eq, (before, after, split, none_before, passes)) ↦
        inl (e, rw h eq, (x ∷ before, after, ap (◌∷◌ x) split, (h, none_before), passes))
    | inr (eq, all) ↦ inr (rw h eq, (h, all))
  ]
]

abbrev pub usable_ipv4 : VoipEndpoint → Bool
usable_ipv4 e = is_usable_reflector_endpoint e && has_ipv4 e

-- The selection is the first usable reflector with an IPv4 address; if none has one, the first
-- usable reflector; and if no endpoint is usable there is none. Then the reason tells the two cases
-- apart: an empty list is reported as no media endpoints, a list that has endpoints, of which none is
-- usable, as no reflector endpoint.
pub select_reflector_lem :
    (es : List VoipEndpoint)
    → ((e : VoipEndpoint) × (select_reflector es ≡ found e) × IsFirst usable_ipv4 es e)
      ⊎ (((e : VoipEndpoint) × (select_reflector es ≡ found e)
            × NoneSuch usable_ipv4 es
            × IsFirst is_usable_reflector_endpoint es e)
          ⊎ (((select_reflector es ≡ not_found "phoneCall returned no media endpoints") × (es ≡ []))
              ⊎ ((select_reflector es
                    ≡ not_found "no Telegram reflector endpoint with peer_tag was available")
                  × (es ≢ [])
                  × NoneSuch is_usable_reflector_endpoint es)))
unfolding select_reflector first_choice
select_reflector_lem [] = inr (inr (inl (refl, refl)))
select_reflector_lem (x ∷ es) = elim (first_such_lem usable_ipv4 (x ∷ es)) [
  | inl (e, eq, first) ↦ inl (e, rw (eq, first_choice), first)
  | inr (eq, none_ipv4) ↦ elim (first_such_lem is_usable_reflector_endpoint (x ∷ es)) [
    | inl (e, eq', first) ↦ inr (inl (e, rw (eq, eq', first_choice), none_ipv4, first))
    | inr (eq', none_left) ↦
        inr (inr (inr (rw (eq, eq', first_choice), (λ same. cc same), none_left)))
  ]
]
