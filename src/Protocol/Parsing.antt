-- ===== src/Protocol/Parsing.antt =====
-- internal/protocol/messages.go: what `ParseMessage` reads.
use sesori_relay_server.Prelude.{
  ◌≡◌, Option, none, some, Text, Text-discrete, arith, ite, ap, sym, refl, subst, ◌∙◌, ◌↔◌, if_pos,
  if_neg, Option-cases, inl, inr,
}
use sesori_relay_server.Protocol.Messages.{
  type_auth, type_key_exchange, type_ready, type_request, type_response, type_sse_subscribe,
  type_sse_unsubscribe, type_sse_event, Envelope, Json, Message, auth, key_exchange, ready, request,
  response, sse_subscribe, sse_unsubscribe, sse_event, Parsed, ok, decoded, parse_as, parse_message,
}

-- The type that a message is sent under.
abbrev pub kind : Message → Text
kind (auth _) = type_auth
kind (key_exchange _) = type_key_exchange
kind (ready _) = type_ready
kind (request _) = type_request
kind (response _) = type_response
kind (sse_subscribe _) = type_sse_subscribe
kind (sse_unsubscribe _) = type_sse_unsubscribe
kind (sse_event _) = type_sse_event

-- What the decoder of the message's own struct reads.
abbrev pub Reads : Json → Text → Message → Type 0
Reads json input (auth m) = json.role_auth input ≡ some m
Reads json input (key_exchange m) = json.key_exchange input ≡ some m
Reads json input (ready m) = json.ready input ≡ some m
Reads json input (request m) = json.request input ≡ some m
Reads json input (response m) = json.response input ≡ some m
Reads json input (sse_subscribe m) = json.sse_subscribe input ≡ some m
Reads json input (sse_unsubscribe m) = json.sse_unsubscribe input ≡ some m
Reads json input (sse_event m) = json.sse_event input ≡ some m

decoded-eq-ok {ℓ} :
    {A : Type ℓ} (wrap : A → Message) (type : Text) (o : Option A) (m : Message)
    → decoded wrap type o ≡ ok m
    → (a : A) × (o ≡ some a) × (wrap a ≡ m)
decoded-eq-ok wrap type none m h = cc
decoded-eq-ok wrap type (some a) m h = (a, refl, cc)

-- One case of the switch, and the cases after it.
case_sound {ℓ} :
    {A : Type ℓ} (type t : Text) (wrap : A → Message) (o : Option A) (rest : Parsed) (m : Message)
    (Good : Message → Type 0)
    → ((a : A) → type ≡ t → o ≡ some a → Good (wrap a))
    → (rest ≡ ok m → Good m)
    → ite (Text-discrete type t) (decoded wrap type o) rest ≡ ok m
    → Good m
case_sound type t wrap o rest m Good hit miss h = elim (Text-discrete type t) [
  | yes p ↦
      let (a, read, wrapped) =
        decoded-eq-ok wrap type o m
          (sym (if_pos (Text-discrete type t) p (decoded wrap type o) rest) ∙ h) in
      subst Good wrapped (hit a p read)
  | no p ↦ miss (sym (if_neg (Text-discrete type t) p (decoded wrap type o) rest) ∙ h)
]

parse_as_sound :
    (json : Json) (input type : Text) (m : Message)
    → parse_as json input type ≡ ok m
    → (type ≡ kind m) × Reads json input m
unfolding parse_as
parse_as_sound json input type m h =
    case_sound type type_auth auth _ _ m Good (λ a p e. (p, e))
      (case_sound type type_key_exchange key_exchange _ _ m Good (λ a p e. (p, e))
        (case_sound type type_ready ready _ _ m Good (λ a p e. (p, e))
          (case_sound type type_request request _ _ m Good (λ a p e. (p, e))
            (case_sound type type_response response _ _ m Good (λ a p e. (p, e))
              (case_sound type type_sse_subscribe sse_subscribe _ _ m Good (λ a p e. (p, e))
                (case_sound type type_sse_unsubscribe sse_unsubscribe _ _ m Good (λ a p e. (p, e))
                  (case_sound type type_sse_event sse_event _ _ m Good (λ a p e. (p, e))
                    (λ e. absurd (cc)))))))))
      h
  where
    Good : Message → Type 0
    Good m = (type ≡ kind m) × Reads json input m

parse_as_complete :
    (json : Json) (input : Text) (m : Message)
    → Reads json input m
    → parse_as json input (kind m) ≡ ok m
unfolding parse_as Text-discrete
parse_as_complete json input (auth m) h = ap (decoded auth type_auth) h
parse_as_complete json input (key_exchange m) h = ap (decoded key_exchange type_key_exchange) h
parse_as_complete json input (ready m) h = ap (decoded ready type_ready) h
parse_as_complete json input (request m) h = ap (decoded request type_request) h
parse_as_complete json input (response m) h = ap (decoded response type_response) h
parse_as_complete json input (sse_subscribe m) h = ap (decoded sse_subscribe type_sse_subscribe) h
parse_as_complete json input (sse_unsubscribe m) h =
    ap (decoded sse_unsubscribe type_sse_unsubscribe) h
parse_as_complete json input (sse_event m) h = ap (decoded sse_event type_sse_event) h

-- ParseMessage returns a message exactly when the envelope decodes, its type is the one that the
-- message is sent under, and the decoder of this type's struct reads the message.
pub parse_message_iff :
    (json : Json) (input : Text) (m : Message)
    → (parse_message json input ≡ ok m)
      ↔ ((e : Envelope) × (json.envelope input ≡ some e) × (e.type ≡ kind m) × Reads json input m)
unfolding parse_message
parse_message_iff json input m = (
  λ h. elim (Option-cases (json.envelope input)) [
    | inl fails ↦ absurd (ground arith)
    | inr (e, found) ↦
        let (type, reads) = parse_as_sound json input e.type m (ground arith) in
        (e, found, type, reads)
  ],
  λ (e, found, type, reads).
      ground (arith, ap (parse_as json input) type, parse_as_complete json input m reads),
)
