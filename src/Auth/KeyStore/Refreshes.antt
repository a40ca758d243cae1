-- ===== src/Auth/KeyStore/Refreshes.antt =====
-- internal/auth/keystore.go: `StartPeriodicRefresh`. The ticks of the loop are a list, each with the
-- backend as it answers then; the loop ends with the context.
use sesori_relay_server.Prelude.{
  ℕ, ◌≡◌, ◌≢◌, ◌∙◌, refl, sym, ap, inl, inr, List, [], ◌∷◌, Option, none, some, Text, Option-cases,
}
use sesori_relay_server.Auth.KeyStore.{
  Backend, KeyStore, Fetched, ok, err, refresh, fetch_and_parse, store_key,
}

-- A refresh that fails is logged, and the loop goes on.
unfoldable pub periodic_refresh : List Backend → KeyStore → KeyStore
periodic_refresh [] ks = ks
periodic_refresh (backend ∷ ticks) ks = periodic_refresh ticks (refresh backend ks).0

-- A backend that answers with a key at the address.
unfoldable pub answer : Backend → Text → Option ℕ
answer backend url = elim (fetch_and_parse backend (record { url = url; key = none })) [
  | ok key ↦ some key
  | err e ↦ none
]

-- The key of the last backend that answers with one, or the key before.
unfoldable pub latest_key : Text → Option ℕ → List Backend → Option ℕ
latest_key url before [] = before
latest_key url before (backend ∷ ticks) = elim (answer backend url) [
  | none ↦ latest_key url before ticks
  | some key ↦ latest_key url (some key) ticks
]

-- One refresh takes the key of the answer, if there is one.
refresh-answer :
    (backend : Backend) (ks : KeyStore)
    → (refresh backend ks).0
      ≡ elim (answer backend ks.url) [ none ↦ ks | some key ↦ record ks { key = some key } ]
unfolding refresh answer store_key fetch_and_parse
refresh-answer backend ks = go (fetch_and_parse backend ks) refl
  where
    go :
        (f : Fetched)
        → fetch_and_parse backend ks ≡ f
        → (refresh backend ks).0
          ≡ elim (answer backend ks.url) [ none ↦ ks | some key ↦ record ks { key = some key } ]
    go (ok key) e = rw e refl
    go (err why) e = rw e refl

-- After any number of ticks of the periodic refresh, whatever the backend answers at each of them,
-- the key store has the same address and the key of the last tick whose answer held one; if none
-- did, it has the key from before.
pub periodic_refresh-latest_key :
    (ticks : List Backend) (ks : KeyStore)
    → periodic_refresh ticks ks ≡ record ks { key = latest_key ks.url ks.key ticks }
unfolding periodic_refresh latest_key
periodic_refresh-latest_key [] ks = refl
periodic_refresh-latest_key (backend ∷ ticks) ks = elim (Option-cases (answer backend ks.url)) [
  | inl nothing ↦
      let same : (refresh backend ks).0 ≡ ks = rw nothing at (refresh-answer backend ks) in
      ap (periodic_refresh ticks) same
      ∙ periodic_refresh-latest_key ticks ks
      ∙ rw (nothing, latest_key) refl
  | inr (key, answers) ↦
      let stored : (refresh backend ks).0 ≡ record ks { key = some key } =
        rw answers at (refresh-answer backend ks) in
      ap (periodic_refresh ticks) stored
      ∙ periodic_refresh-latest_key ticks (record ks { key = some key })
      ∙ rw (answers, latest_key) refl
]

-- A key store that has a key has one after any number of ticks of the periodic refresh.
pub periodic_refresh_keeps_key :
    (ticks : List Backend) (ks : KeyStore) → ks.key ≢ none → (periodic_refresh ticks ks).key ≢ none
unfolding latest_key
periodic_refresh_keeps_key ticks ks loaded e =
    kept ticks ks.key loaded (sym (ap (λ k. k.key) (periodic_refresh-latest_key ticks ks)) ∙ e)
  where
    kept :
        (ts : List Backend) (before : Option ℕ) → before ≢ none → latest_key ks.url before ts ≢ none
    kept [] before has h = has h
    kept (backend ∷ ts) before has h = elim (Option-cases (answer backend ks.url)) [
      | inl nothing ↦ kept ts before has (rw (nothing, latest_key) at h)
      | inr (key, answers) ↦ kept ts (some key) (λ x. cc) (rw (answers, latest_key) at h)
    ]
