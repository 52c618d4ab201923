-- ===== src/Rtsp/Invariant/Setup.antt =====
-- The clients of rtsp_server.c over `handle_setup`.
use smart_lock_intercom.Base.{
  ℕ, ◌≡◌, refl, inl, inr, Bool, true, false, ◌||◌, not, Option, some, none, Bytes, Bool-cases,
  Option-cases, if_intro,
}
use smart_lock_intercom.Rtsp.Request.{RtspReq}
use smart_lock_intercom.Rtsp.Transport.{is_tcp_transport, parse_client_port}
use smart_lock_intercom.Rtsp.State.{RtspClient, Answers}
use smart_lock_intercom.Rtsp.Handlers.Setup.{
  Track, track_of, SetupResult, accepted, refused, setup_tcp, setup_udp, setup_ports, finish_setup,
  handle_setup, or_else, finish_video, finish_audio, video_socket, audio_socket,
}
use smart_lock_intercom.Rtsp.Invariant.{control, is_some, has_track_setup, HasTransport, IsValid}

-- What an accepted transport leaves behind.
abbrev Settled : SetupResult → Type 0
Settled (accepted c hs) = HasTransport (control c) × (has_track_setup (control c) ≡ true)
Settled (refused code) = Unit

is_some-or_else : (o : Option ℕ) (n : ℕ) → is_some (or_else o n) ≡ true
is_some-or_else none n = refl
is_some-or_else (some m) n = refl

or_true : (a : Bool) → (a || true) ≡ true
or_true true = refl
or_true false = refl

module _ (ans : Answers) where
  setup_tcp-Settled :
      (t : Track) (transport : Bytes) (c : RtspClient)
      → IsValid c
      → Settled (setup_tcp ans t transport c)
  unfolding setup_tcp
  setup_tcp-Settled t transport c v = elim (Bool-cases t.is_video) [
    | inl video ↦ rw video (
      (record {
        video = λ h. refl;
        audio = λ h. refl;
        backchannel = λ h. refl;
        speaker = v.transport.speaker;
      }),
      refl,
    )
    | inr not_video ↦ elim (Bool-cases t.is_backchannel) [
      | inl back ↦
          rw (not_video, back)
            (
              (record {
                video = λ h. refl;
                audio = λ h. refl;
                backchannel = λ h. refl;
                speaker = λ h. refl;
              }),
              rw (or_true c.audio_setup) (or_true c.video_setup),
            )
      | inr audio ↦
          rw (not_video, audio)
            (
              (record {
                video = λ h. refl;
                audio = λ h. refl;
                backchannel = λ h. refl;
                speaker = v.transport.speaker;
              }),
              or_true c.video_setup,
            )
    ]
  ]

  video-Settled :
      (ports : ℕ × ℕ) (c : RtspClient)
      → IsValid c
      → Settled (finish_video ports (video_socket ans c))
  video-Settled ports c v = elim (Bool-cases c.rtp_video) [
    | inl has ↦ rw has (
      record {
        video = λ h. or_true c.interleaved;
        audio = v.transport.audio;
        backchannel = v.transport.backchannel;
        speaker = v.transport.speaker;
      },
      refl,
    )
    | inr has_none ↦ rw has_none (elim (Option-cases ans.bound_port) [
      | inl failed ↦ rw failed tt
      | inr (port, bound) ↦ rw bound (
        record {
          video = λ h. or_true c.interleaved;
          audio = v.transport.audio;
          backchannel = v.transport.backchannel;
          speaker = v.transport.speaker;
        },
        refl,
      )
    ])
  ]

  audio-Settled :
      (ports : ℕ × ℕ) (c : RtspClient)
      → IsValid c
      → Settled (finish_audio ports (audio_socket ans c))
  audio-Settled ports c v = elim (Bool-cases c.rtp_audio) [
    | inl has ↦ rw has (
      record {
        video = v.transport.video;
        audio = λ h. or_true c.interleaved;
        backchannel = v.transport.backchannel;
        speaker = v.transport.speaker;
      },
      or_true c.video_setup,
    )
    | inr has_none ↦ rw has_none (elim (Option-cases ans.bound_port) [
      | inl failed ↦ rw failed tt
      | inr (port, bound) ↦ rw bound (
        record {
          video = v.transport.video;
          audio = λ h. or_true c.interleaved;
          backchannel = v.transport.backchannel;
          speaker = v.transport.speaker;
        },
        or_true c.video_setup,
      )
    ])
  ]

  ports-Settled :
      (t : Track) (ports : Option (ℕ × ℕ)) (c : RtspClient)
      → IsValid c
      → Settled (setup_ports ans t ports c)
  ports-Settled t none c v = tt
  ports-Settled t (some ports) c v =
      if_intro Settled t.is_video (λ h. video-Settled ports c v) (λ h. audio-Settled ports c v)

  setup_udp-Settled :
      (t : Track) (transport : Bytes) (c : RtspClient)
      → IsValid c
      → Settled (setup_udp ans t transport c)
  unfolding setup_udp
  setup_udp-Settled t transport c v =
      if_intro Settled t.is_backchannel (λ h. tt)
        (λ h.
          if_intro Settled (not c.loopback) (λ h. tt)
            (λ h. ports-Settled t (parse_client_port transport) c v))

  finish_setup-IsValid :
      (req : RtspReq) (c : RtspClient) (r : SetupResult)
      → IsValid c
      → Settled r
      → IsValid (finish_setup ans req c r).0
  unfolding finish_setup
  finish_setup-IsValid req c (refused code) v s = v
  finish_setup-IsValid req c (accepted d hs) v (transport, track) = record {
    transport = record {
      video = transport.video;
      audio = transport.audio;
      backchannel = transport.backchannel;
      speaker = transport.speaker;
    };
    session = λ h. is_some-or_else d.session_id ans.session;
    track = λ h. track;
  }

  pub handle_setup-IsValid :
      (req : RtspReq) (c : RtspClient) → IsValid c → IsValid (handle_setup ans req c).0
  unfolding handle_setup
  handle_setup-IsValid req c v =
      let t = track_of c.video_setup req.uri in
      finish_setup-IsValid req c _ v (
        if_intro Settled (is_tcp_transport req.transport)
          (λ h. setup_tcp-Settled t req.transport c v) (λ h. setup_udp-Settled t req.transport c v))
