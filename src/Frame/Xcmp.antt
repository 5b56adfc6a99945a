-- ===== src/Frame/Xcmp.antt =====
-- `XcmpMessageSender` of Cumulus, the codec of the blobs, and versioned XCM.
use xcm_robobank_prototype.Prelude.{ℕ, ◌≡◌, Bool, Option, some, List, [], ◌∷◌, ◌++◌}
use xcm_robobank_prototype.Frame.Outcome.{ForeignError, Result, ok, err}

abbrev pub ParaId : Type 0
ParaId = ℕ

abbrev pub Blob : Type 0
Blob = List ℕ

pub data ServiceQuality : Type 0 where
  ordered fast : ServiceQuality

-- The sender keeps its queues; `sent` observes the blobs that it has accepted, the latest last.
pub record XcmpMessageSender : Type 1 where
  pub Queue : Type 0
  pub sent : Queue → List (ParaId × Blob)
  pub send_blob_message :
      Queue → ParaId → Blob → ServiceQuality → Result ForeignError (Unit {0}) × Queue

pub record XcmpMessageSenderLaws (x : XcmpMessageSender) : Type 0 where
  pub sent_ok :
      (q : x.Queue) (p : ParaId) (b : Blob) (s : ServiceQuality)
      → (x.send_blob_message q p b s).0 ≡ ok tt
      → x.sent (x.send_blob_message q p b s).1 ≡ x.sent q ++ (p, b) ∷ []
  pub sent_err :
      (q : x.Queue) (p : ParaId) (b : Blob) (s : ServiceQuality) (e : ForeignError)
      → (x.send_blob_message q p b s).0 ≡ err e
      → (x.send_blob_message q p b s).1 ≡ q

-- `Encode` and `Decode`, as the codec derives them for a type of messages.
pub record Codec (M : Type 0) : Type 0 where
  pub encode : M → Blob
  pub decode : Blob → Option M

abbrev pub DecodesEncoded : {M : Type 0} → Codec M → Type 0
DecodesEncoded {M} c = (m : M) → c.decode (c.encode m) ≡ some m

-- `VersionedXcm` with `using_encoded(T::Hashing::hash)`, and whether `Xcm::try_from` takes it.
pub record XcmFormat : Type 1 where
  pub VersionedXcm : Type 0
  pub Hash : Type 0
  pub hash : VersionedXcm → Hash
  pub try_from : VersionedXcm → Bool
