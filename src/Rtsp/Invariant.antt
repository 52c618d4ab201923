-- ===== src/Rtsp/Invariant.antt =====
-- What holds of every client of rtsp_server.c between two events.
pub mod Setup
pub mod Play
pub mod Request
pub mod Receive
pub mod Steps
pub mod Opened
use smart_lock_intercom.Base.{◌≡◌, Bool, true, false, ◌||◌, Option, some, none}
use smart_lock_intercom.Rtsp.State.{RtspClient, RtspState, is_idle}

-- The fields that the handlers' guards read.
pub record Control : Type 0 where
  pub state : RtspState
  pub has_session : Bool
  pub interleaved : Bool
  pub rtp_video : Bool
  pub rtp_audio : Bool
  pub video_setup : Bool
  pub audio_setup : Bool
  pub backchannel_setup : Bool
  pub audio_out_opened : Bool

abbrev pub is_some {ℓ} : {A : Type ℓ} → Option A → Bool
is_some none = false
is_some (some a) = true

abbrev pub control : RtspClient → Control
control c = record {
  state = c.state;
  has_session = is_some c.session_id;
  interleaved = c.interleaved;
  rtp_video = c.rtp_video;
  rtp_audio = c.rtp_audio;
  video_setup = c.video_setup;
  audio_setup = c.audio_setup;
  backchannel_setup = c.backchannel_setup;
  audio_out_opened = c.audio_out_opened;
}

-- Some track is set up.
abbrev pub has_track_setup : Control → Bool
has_track_setup k = k.video_setup || (k.audio_setup || k.backchannel_setup)

-- Every track that is set up has a transport, and the speaker serves the backchannel only.
pub record HasTransport (k : Control) : Type 0 where
  pub video : k.video_setup ≡ true → (k.interleaved || k.rtp_video) ≡ true
  pub audio : k.audio_setup ≡ true → (k.interleaved || k.rtp_audio) ≡ true
  pub backchannel : k.backchannel_setup ≡ true → k.interleaved ≡ true
  pub speaker : k.audio_out_opened ≡ true → k.backchannel_setup ≡ true

-- A client that is not idle has a session and a track, too.
pub record IsSound (k : Control) : Type 0 where
  pub transport : HasTransport k
  pub session : is_idle k.state ≡ false → k.has_session ≡ true
  pub track : is_idle k.state ≡ false → has_track_setup k ≡ true

abbrev pub IsValid : RtspClient → Type 0
IsValid c = IsSound (control c)
