-- ===== src/Backend/Sound/Pages.antt =====
-- startClusterHandler, serverStatusHandler and streamHandler (backend/backend.go) keep the server's
-- state sound.
use etcd_play.Base.{Bool, List, [], none}
use etcd_play.Base.Text.{Text, codes, same}
use etcd_play.Base.Map.{insert}
use etcd_play.Base.Outcome.Preserves.{
  Preserves, Preserves-pure, Preserves-get, Preserves-bind, Preserves-Bool, Preserves-if,
  Preserves-Option, Preserves-List, Preserves-modify,
}
use etcd_play.Proc.Error.{Result}
use etcd_play.Proc.Cluster.Fit.{IsFit}
use etcd_play.Proc.Cluster.Fit.Requests.{stream-Preserves}
use etcd_play.Backend.State.{Request, method_not_allowed}
use etcd_play.Backend.Handlers.Pages.{
  start_page, start_cluster_handler, status_page, server_status_handler, drain, take_streams,
  stream_page, stream_handler,
}
use etcd_play.Backend.Sound.{
  IsSound, lock-Preserves, unlock-Preserves, say-Preserves, encode-Preserves, on_cluster-Preserves,
  cluster_active-Preserves, when_active-Preserves,
}
use etcd_play.Backend.Sound.Start.{start_cluster-Preserves}

start_page-Preserves :
    (new_agent : Text → Result Text) (token : Text) (r : Request)
    → Preserves IsSound (start_page new_agent token r)
unfolding start_page
start_page-Preserves new_agent token r = Preserves-bind Preserves-get (λ a.
    Preserves-bind cluster_active-Preserves (λ active.
      Preserves-Bool active (encode-Preserves r _) (
        Preserves-bind (start_cluster-Preserves new_agent token)
          (λ e. Preserves-Option e (encode-Preserves r _) (λ x. encode-Preserves r _)))))

pub start_cluster_handler-Preserves :
    (new_agent : Text → Result Text) (token : Text) (r : Request)
    → Preserves IsSound (start_cluster_handler new_agent token r)
unfolding start_cluster_handler
start_cluster_handler-Preserves new_agent token r =
    Preserves-if (same r.method (codes "GET")) (start_page-Preserves new_agent token r)
      (say-Preserves method_not_allowed)

status_page-Preserves : (r : Request) → Preserves IsSound (status_page r)
unfolding status_page
status_page-Preserves r = Preserves-bind Preserves-get (λ a.
    Preserves-bind cluster_active-Preserves
      (λ active. Preserves-Bool active (encode-Preserves r _) (Preserves-pure none)))

pub server_status_handler-Preserves : (r : Request) → Preserves IsSound (server_status_handler r)
unfolding server_status_handler
server_status_handler-Preserves r =
    Preserves-if (same r.method (codes "GET")) (status_page-Preserves r)
      (say-Preserves method_not_allowed)

take_streams-Preserves : (picks : List Bool) (id : Text) → Preserves IsFit (take_streams picks id)
unfolding take_streams
take_streams-Preserves picks id = Preserves-bind (stream-Preserves id) (λ own.
    Preserves-bind Preserves-get (λ c.
      Preserves-bind
        (Preserves-modify
          {f = λ d. record d {
            shared = record (d.shared) { stream = [] };
            id_to_stream = insert id [] d.id_to_stream;
          }}
          (λ d f. record { free = f.free; nodes = f.nodes }))
        (λ u. Preserves-pure (drain picks c.shared.stream own))))

stream_page-Preserves :
    (picks : List Bool) (id : Text) (r : Request) → Preserves IsSound (stream_page picks id r)
unfolding stream_page
stream_page-Preserves picks id r = Preserves-bind lock-Preserves (λ u.
    Preserves-bind (on_cluster-Preserves (stream-Preserves id)) (λ ch.
      Preserves-bind unlock-Preserves (λ t.
        Preserves-bind (on_cluster-Preserves (take_streams-Preserves picks id)) (λ streams.
          Preserves-List streams (Preserves-pure none) (λ m ms. encode-Preserves r _)))))

pub stream_handler-Preserves :
    (picks : List Bool) (id : Text) (r : Request) → Preserves IsSound (stream_handler picks id r)
unfolding stream_handler
stream_handler-Preserves picks id r =
    Preserves-if (same r.method (codes "GET"))
      (when_active-Preserves (stream_page-Preserves picks id r)) (say-Preserves method_not_allowed)
