-- ===== src/Tests/Codecs.antt =====
-- A codec for messages whose payload is a number, as in the runtime, for the tests.
use xcm_robobank_prototype.Prelude.{
  ℕ, refl, Bool, true, false, Option, none, some, List, [], ◌∷◌, ◌==◌, if◌then◌else◌,
}
use xcm_robobank_prototype.Frame.{Blob, Codec, DecodesEncoded, XcmFormat}
use xcm_robobank_prototype.Common.{XcmpMessage}

abbrev pub Message : Type 0
Message = XcmpMessage ℕ ℕ ℕ ℕ

abbrev bit : Bool → ℕ
bit true = 1
bit false = 0

abbrev encode : Message → Blob
encode (XcmpMessage.new_order c o) = 0 ∷ c ∷ o.until ∷ o.payload ∷ o.fee ∷ o.device ∷ []
encode (XcmpMessage.order_accept c d) = 1 ∷ c ∷ d ∷ []
encode (XcmpMessage.order_reject c d b) = 2 ∷ c ∷ d ∷ bit b ∷ []
encode (XcmpMessage.order_done c d b) = 3 ∷ c ∷ d ∷ bit b ∷ []

abbrev flagged : (Bool → Message) → ℕ → Option Message
flagged m n = if n == 0 then some (m false) else if n == 1 then some (m true) else none

abbrev decode_fields : ℕ → List ℕ → Option Message
decode_fields tag (c ∷ until ∷ payload ∷ fee ∷ device ∷ []) =
    if tag == 0
    then some (
        XcmpMessage.new_order c
          (record { until = until; payload = payload; fee = fee; device = device }))
    else none
decode_fields tag (c ∷ d ∷ []) = if tag == 1 then some (XcmpMessage.order_accept c d) else none
decode_fields tag (c ∷ d ∷ b ∷ []) =
    if tag == 2
    then flagged (XcmpMessage.order_reject c d) b
    else if tag == 3
    then flagged (XcmpMessage.order_done c d) b
    else none
decode_fields tag _ = none

abbrev decode : Blob → Option Message
decode [] = none
decode (tag ∷ fields) = decode_fields tag fields

abbrev pub simple_codec : Codec Message
simple_codec = record { encode = encode; decode = decode }

pub simple_codec-DecodesEncoded : DecodesEncoded simple_codec
simple_codec-DecodesEncoded (XcmpMessage.new_order c o) = refl
simple_codec-DecodesEncoded (XcmpMessage.order_accept c d) = refl
simple_codec-DecodesEncoded (XcmpMessage.order_reject c d true) = refl
simple_codec-DecodesEncoded (XcmpMessage.order_reject c d false) = refl
simple_codec-DecodesEncoded (XcmpMessage.order_done c d true) = refl
simple_codec-DecodesEncoded (XcmpMessage.order_done c d false) = refl

-- Versioned messages are numbers, of which only 0 is readable.
abbrev pub simple_xcm : XcmFormat
simple_xcm = record { VersionedXcm = ℕ; Hash = ℕ; hash = λ m. m; try_from = λ m. m == 0 }
