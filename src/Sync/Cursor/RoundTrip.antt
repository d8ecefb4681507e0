-- ===== src/Sync/Cursor/RoundTrip.antt =====
-- What becomes of a cursor that is sent back (internal/modules/sync/cursor.go).
use mathlib.Core.List.{append_cancel_right}
use cv_agent.Base.{
  ℕ, List, ◌∷◌, ◌++◌, bytes, ◌+◌, ◌*◌, ◌/◌, ◌≤◌, ◌≡◌, ◌≢◌, refl, ap, Bool-cases, inl, inr, String,
  false, some, pos, is_empty, rune_count, str_eq_self, str_eq→eq, arith,
}
use cv_agent.Db.{ok, err}
use cv_agent.Sync.Operations.{second}
use cv_agent.Sync.Feed.{cursor_invalid}
use cv_agent.Sync.Cursor.{
  CursorCodec, append, contains_dot, cut, token_of, signature, encode, decode, check_age,
  pull_payload, encode_pull, decode_pull,
}

cut-append :
    (body sig : String)
    → contains_dot body ≡ false
    → cut (append body (append "." sig)) ≡ some (body, sig)
unfolding cut
cut-append String.[] sig h = refl
cut-append (String.◌∷◌ c s) sig h = rw (cut-append s sig (ground arith)) (ground arith)

append-not_empty : (s t : String) → is_empty s ≡ false → is_empty (append s t) ≡ false
append-not_empty String.[] t h = cc
append-not_empty (String.◌∷◌ c s) t h = elim (Bool-cases (is_empty (String.◌∷◌ c (append s t)))) [
  | inl e ↦
      let n : rune_count (String.◌∷◌ c (append s t)) ≡ rune_count "" =
        ap rune_count (str_eq→eq (String.◌∷◌ c (append s t)) "" e) in
      absurd (omega (arith, n))
  | inr e ↦ e
]

in_age :
    (k : CursorCodec) (now later position : ℕ)
    → now ≤ later
    → later ≤ now / second * second + k.max_age
    → check_age k later (pull_payload k now position) (pos (now / second))
      ≡ ok (pull_payload k now position)
unfolding check_age
in_age k now later position le age = ground arith

module _ (k : CursorCodec) (now later position : ℕ) (user : String) (raw : String)
    (marshalled : k.marshal (pull_payload k now position) ≡ some raw)
    (unmarshalled : k.unmarshal raw ≡ some (pull_payload k now position))
    (body_decoded : k.decode64 (k.encode64 raw) ≡ some raw)
    (body_dotless : contains_dot (k.encode64 raw) ≡ false)
    (body_text : is_empty (k.encode64 raw) ≡ false)
    (signature_decoded : k.decode64 (k.encode64 (signature k user (k.encode64 raw)))
      ≡ some (signature k user (k.encode64 raw)))
    (signature_dotless : contains_dot (k.encode64 (signature k user (k.encode64 raw))) ≡ false)
    (signature_text : is_empty (k.encode64 (signature k user (k.encode64 raw))) ≡ false) where
  abbrev body : String
  body = k.encode64 raw

  abbrev sig : String
  sig = k.encode64 (signature k user body)

  parts : cut (token_of k user body) ≡ some (body, sig)
  parts = cut-append body sig body_dotless

  opened :
      now ≤ later
      → later ≤ now / second * second + k.max_age
      → decode k later user (token_of k user body) ≡ ok (pull_payload k now position)
  unfolding decode
  opened le age =
      rw
        (
          parts,
          body_text,
          signature_text,
          signature_dotless,
          signature_decoded,
          str_eq_self (signature k user body),
          body_decoded,
          unmarshalled,
        )
        (in_age k now later position le age)

  -- If a pull cursor's payload has a JSON text that is read back as that payload, and the encodings of
  -- that text and of its signature decode to them and are texts without a dot that are not empty, then the cursor that is made at `now` and is sent back by the same
  -- user, not before `now` and not later than its greatest age allows, gives its position.
  pub decode_pull-encode_pull :
      now ≤ later
      → later ≤ now / second * second + k.max_age
      → (encode_pull k now user position ≡ ok (token_of k user body))
        × (decode_pull k later user (token_of k user body) ≡ ok position)
  unfolding decode_pull encode_pull encode
  decode_pull-encode_pull le age =
      (ground arith, rw (append-not_empty body (append "." sig) body_text, opened le age))

  -- The messages that two users' signatures of the body are made of.
  abbrev message_of : String → List ℕ
  message_of name = bytes name ++ (0 ∷ bytes body)

  -- If a pull cursor's payload has a JSON text that is read back as that payload, and the encodings of
  -- that text and of its signature decode to them and are texts without a dot that are not empty, then
  -- the cursor of one user that another sends is invalid at any time, if HMAC does not give the user
  -- and the other, each followed by a zero byte and the cursor's body, one signature although they
  -- differ: the user's name is part of what is signed.
  pub decode_pull-other_user :
      (other : String)
      → bytes user ≢ bytes other
      → (k.mac (message_of user) ≡ k.mac (message_of other) → message_of user ≡ message_of other)
      → decode_pull k later other (token_of k user body) ≡ err cursor_invalid
  unfolding decode_pull decode
  decode_pull-other_user other differ no_collision =
      let apart : signature k user body ≢ signature k other body =
        λ same. differ (append_cancel_right _ _ (0 ∷ bytes body) (no_collision same)) in
      rw
        (
          append-not_empty body (append "." sig) body_text,
          parts,
          body_text,
          signature_text,
          signature_dotless,
          signature_decoded,
        )
        (ground (arith, str_eq→eq (signature k user body) (signature k other body)))
