-- ===== src/Callback/Cancel/RoundTrip.antt =====
-- A pressed button is read back as what it was made of, and only well-formed payloads are read.
use saveinator.Prelude.{
  ◌≡◌, ◌≢◌, refl, [], ◌∷◌, ◌++◌, none, some, arith, Bytes, codes, ℤ, Lacks, IsInt64, List, All,
  eq_bytes_iff, eq_bytes, ap, sym, ◌∙◌,
}
use saveinator.Text.Split.{split, split_first, split_whole, split-Lacks, join-split, join}
use saveinator.Text.Decimal.{format_int, parse_int}
use saveinator.Text.Decimal.RoundTrip.{parse_int-format_int, format_int-Lacks, parse_int-IsInt64}
use saveinator.Callback.Cancel.{
  Data, colon, callback_data, queue_callback_data, cancel_of_parts, parse_cancel, parse_queue,
}

split-callback_data :
    (scenario : Bytes) (user_id : ℤ) (token : Bytes)
    → Lacks colon scenario
    → Lacks colon token
    → split colon (callback_data scenario user_id token)
      ≡ codes "dlc" ∷ scenario ∷ format_int user_id ∷ token ∷ []
unfolding callback_data
split-callback_data scenario user_id token hs ht = rw (
  split_first colon (codes "dlc") _ (ground arith),
  split_first colon scenario _ hs,
  split_first colon (format_int user_id) _ (format_int-Lacks colon user_id refl (omega arith)),
  split_whole colon token ht,
)

-- The payload of a cancel button is read back to its scenario, user and token, if neither text
-- holds a colon, the token is not empty and the user id is an `int64`.
pub parse_cancel-callback_data :
    (scenario : Bytes) (user_id : ℤ) (token : Bytes)
    → Lacks colon scenario
    → Lacks colon token
    → token ≢ []
    → IsInt64 user_id
    → parse_cancel (callback_data scenario user_id token)
      ≡ some (record { scenario = scenario; user_id = user_id; token = token })
unfolding parse_cancel eq_bytes
parse_cancel-callback_data scenario user_id [] hs ht ne hi = absurd (ne refl)
parse_cancel-callback_data scenario user_id (c ∷ token) hs ht ne hi =
    rw (split-callback_data scenario user_id (c ∷ token) hs ht, parse_int-format_int user_id hi)

-- What the parts of an accepted payload are.
abbrev CancelParts : List Bytes → Data → Type 0
CancelParts ps d =
    (id : Bytes) × (ps ≡ codes "dlc" ∷ d.scenario ∷ id ∷ d.token ∷ [])
    × (d.token ≢ [])
    × (parse_int id ≡ some d.user_id)

cancel_of_parts-CancelParts :
    (ps : List Bytes) (d : Data) → cancel_of_parts ps ≡ some d → CancelParts ps d
unfolding cancel_of_parts
cancel_of_parts-CancelParts (tag ∷ scenario ∷ id ∷ (c ∷ token) ∷ []) d h = (
  id,
  ground (arith, eq_bytes_iff tag (codes "dlc")),
  ground (arith, eq_bytes_iff tag (codes "dlc")),
  ground (arith, eq_bytes_iff tag (codes "dlc")),
)
cancel_of_parts-CancelParts (tag ∷ scenario ∷ id ∷ [] ∷ []) d h =
    absurd (ground (arith, eq_bytes_iff tag (codes "dlc")))
cancel_of_parts-CancelParts [] d h = cc
cancel_of_parts-CancelParts (a ∷ []) d h = cc
cancel_of_parts-CancelParts (a ∷ b ∷ []) d h = cc
cancel_of_parts-CancelParts (a ∷ b ∷ c ∷ []) d h = cc
cancel_of_parts-CancelParts (a ∷ b ∷ c ∷ e ∷ f ∷ ps) d h = cc

-- A payload that `ParseCancel` accepts spells, between colons, the tag, the scenario, a decimal text
-- of the user id and the token; neither text holds a colon, the token is not empty, and the user id
-- is in the range of `int64`.
pub parse_cancel_sound :
    (text : Bytes) (d : Data)
    → parse_cancel text ≡ some d
    → ((id : Bytes) × (text
          ≡ codes "dlc" ++ colon ∷ (d.scenario ++ colon ∷ (id ++ colon ∷ d.token)))
        × (parse_int id ≡ some d.user_id))
      × Lacks colon d.scenario
      × Lacks colon d.token
      × (d.token ≢ [])
      × IsInt64 d.user_id
unfolding parse_cancel
parse_cancel_sound text d h =
    let (id, shape, ne, number) = cancel_of_parts-CancelParts (split colon text) d h in
    let none_holds : All (Lacks colon) (codes "dlc" ∷ d.scenario ∷ id ∷ d.token ∷ []) =
      rw shape at (split-Lacks colon text) in
    (
      (id, sym (join-split colon text) ∙ ap (join colon) shape ∙ unfold join in refl, number),
      none_holds.1.0,
      none_holds.1.1.1.0,
      ne,
      parse_int-IsInt64 id d.user_id number,
    )

-- The queue button's payload is read back to its user id, for every `int64`.
pub parse_queue-queue_callback_data :
    (user_id : ℤ) → IsInt64 user_id → parse_queue (queue_callback_data user_id) ≡ some user_id
unfolding parse_queue queue_callback_data eq_bytes
parse_queue-queue_callback_data user_id h = rw (
  split_first colon (codes "dlq") _ (ground arith),
  split_whole colon (format_int user_id) (format_int-Lacks colon user_id refl (omega arith)),
  parse_int-format_int user_id h,
)

-- The two families of payloads are never confused: what one reader accepts the other refuses.
pub parse_queue-parse_cancel :
    (text : Bytes) (d : Data) → parse_cancel text ≡ some d → parse_queue text ≡ none
unfolding parse_cancel parse_queue
parse_queue-parse_cancel text d h =
    let (id, shape, ne, number) = cancel_of_parts-CancelParts (split colon text) d h in rw shape
