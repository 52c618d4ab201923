-- ===== src/Rtsp/Invariant/Request.antt =====
-- The clients of rtsp_server.c over a request.
use smart_lock_intercom.Base.{
  ℕ, ◌≡◌, refl, sym, subst, ◌||◌, not, Option, some, none, List, [], ◌∷◌, Bytes, if_intro,
  Bool-cases, inl, inr, ◌==◌, All,
}
use smart_lock_intercom.Base.Int.{ℤ}
use smart_lock_intercom.Status.{is_ok}
use smart_lock_intercom.Camera.{camera_get_sps_pps}
use smart_lock_intercom.Auth.{rtsp_auth_check}
use smart_lock_intercom.Rtsp.Request.{RtspReq, parse_rtsp_request}
use smart_lock_intercom.Rtsp.State.{
  RtspClient, idle, World, Answers, store, unlink, has_playing_clients,
}
use smart_lock_intercom.Rtsp.Media.{maybe_stop_media, client_destructor}
use smart_lock_intercom.Rtsp.Handlers.Describe.{handle_describe, params_known, learn_params}
use smart_lock_intercom.Rtsp.Handlers.Setup.{handle_setup}
use smart_lock_intercom.Rtsp.Handlers.Play.{handle_play, handle_teardown}
use smart_lock_intercom.Rtsp.Dispatch.{
  Method, options, describe, setup, play, teardown, get_parameter, unknown, method_of, is_open,
  Dispatched, touch, serve, auth_header, dispatch_request, dispatch_rtsp,
}
use smart_lock_intercom.Rtsp.Invariant.{IsValid}
use smart_lock_intercom.Rtsp.Invariant.Setup.{handle_setup-IsValid}
use smart_lock_intercom.Rtsp.Invariant.Play.{handle_play-IsValid, handle_play-clients}

pub All-store :
    (c : RtspClient) (cs : List RtspClient) → IsValid c → All IsValid cs → All IsValid (store c cs)
unfolding store
All-store c [] v vs = tt
All-store c (d ∷ ds) v vs =
    if_intro (All IsValid) (d.id == c.id) (λ h. (v, vs.1)) (λ h. (vs.0, All-store c ds v vs.1))

pub All-unlink : (id : ℕ) (cs : List RtspClient) → All IsValid cs → All IsValid (unlink id cs)
unfolding unlink
All-unlink id [] vs = tt
All-unlink id (d ∷ ds) vs =
    if_intro (All IsValid) (d.id == id) (λ h. vs.1) (λ h. (vs.0, All-unlink id ds vs.1))

pub clients-maybe_stop_media : (w : World) → (maybe_stop_media w).clients ≡ w.clients
unfolding maybe_stop_media
clients-maybe_stop_media w = elim (Bool-cases (has_playing_clients w.clients)) [
  | inl some_play ↦ rw some_play refl
  | inr none_play ↦ rw none_play refl
]

-- A client that became idle is well formed.
pub idle-IsValid : (c : RtspClient) → IsValid c → IsValid (record c { state = idle })
idle-IsValid c v = record {
  transport = record {
    video = v.transport.video;
    audio = v.transport.audio;
    backchannel = v.transport.backchannel;
    speaker = v.transport.speaker;
  };
  session = λ h. absurd (cc h);
  track = λ h. absurd (cc h);
}

abbrev pub IsValid? : Option RtspClient → Type 0
IsValid? none = Unit
IsValid? (some c) = IsValid c

-- Every client of the world is well formed, and so is the one at hand if it is still there.
pub record AllValid (d : Dispatched) : Type 0 where
  pub clients : All IsValid d.world.clients
  pub client : IsValid? d.client

pub record Good (w : World) (c : RtspClient) : Type 0 where
  pub clients : All IsValid w.clients
  pub client : IsValid c

abbrev touch-IsValid : (c : RtspClient) → IsValid c → IsValid (touch c)
touch-IsValid c v = record { transport = v.transport; session = v.session; track = v.track }

handle_describe-clients :
    (ans : Answers) (req : RtspReq) (c : RtspClient) (w : World)
    → (handle_describe ans req c w).0.clients ≡ w.clients
unfolding handle_describe learn_params
handle_describe-clients ans req c w =
    elim (Bool-cases (params_known (camera_get_sps_pps w.camera))) [
      | inl known ↦ rw (known, handle_describe) refl
      | inr not_known ↦ rw (not_known, handle_describe) refl
    ]

module _ (md5 : Bytes → Bytes) (pcm2ulaw : ℤ → ℕ) where
  serve-AllValid :
      (ans : Answers) (m : Method) (req : RtspReq) (w : World) (c : RtspClient)
      → Good w c
      → AllValid (serve pcm2ulaw ans m req w c)
  unfolding serve handle_teardown client_destructor
  serve-AllValid ans options req w c g = record {
    clients = g.clients;
    client = touch-IsValid c g.client;
  }
  serve-AllValid ans describe req w c g = record {
    clients = subst (All IsValid) (sym (handle_describe-clients ans req c w)) g.clients;
    client = touch-IsValid c g.client;
  }
  serve-AllValid ans setup req w c g = record {
    clients = g.clients;
    client = touch-IsValid (handle_setup ans req c).0 (handle_setup-IsValid ans req c g.client);
  }
  serve-AllValid ans play req w c g = record {
    clients = subst (All IsValid) (sym (handle_play-clients pcm2ulaw ans req w c)) g.clients;
    client =
        touch-IsValid (handle_play pcm2ulaw ans req w c).client
          (handle_play-IsValid pcm2ulaw ans req w c g.client);
  }
  serve-AllValid ans teardown req w c g =
      let c' : RtspClient = record c { state = idle } in
      let w' : World = record w { clients = store c' w.clients } in
      let stored = All-store c' w.clients (idle-IsValid c g.client) g.clients in
      record {
        clients =
            All-unlink c.id _ (subst (All IsValid) (sym (clients-maybe_stop_media w')) stored);
        client = tt;
      }
  serve-AllValid ans get_parameter req w c g = record {
    clients = g.clients;
    client = touch-IsValid c g.client;
  }
  serve-AllValid ans unknown req w c g = record { clients = g.clients; client = g.client }

  pub dispatch_rtsp-AllValid :
      (ans : Answers) (text : Bytes) (len : ℕ) (w : World) (c : RtspClient)
      → Good w c
      → AllValid (dispatch_rtsp md5 pcm2ulaw ans text len w c)
  unfolding dispatch_rtsp dispatch_request
  dispatch_rtsp-AllValid ans text len w c g =
      let req = parse_rtsp_request text len in
      let m = method_of req.method in
      let checked =
        rtsp_auth_check md5 ans.rand ans.stale req.method req.uri (auth_header req.authorization)
          w.auth in
      let passed : World = record w { auth = checked.1 } in
      elim (Bool-cases (not w.auth.enabled || is_open m)) [
        | inl skipped ↦ rw (skipped, dispatch_request) (serve-AllValid ans m req w c g)
        | inr needed ↦ elim (Bool-cases (is_ok checked.0)) [
          | inl allowed ↦
              rw (needed, allowed, dispatch_request)
                (serve-AllValid ans m req passed c
                  (record { clients = g.clients; client = g.client }))
          | inr denied ↦
              rw (needed, denied, dispatch_request)
                (record { clients = g.clients; client = g.client })
        ]
      ]
