-- ===== src/Proxy/Tunnel/Traffic.antt =====
-- What a tunnel of rust_http_proxy/src/proxy.rs counts, and for whom.
use rust_http_proxy.Common.{
  ℕ, ◌+◌, ◌%◌, ◌<◌, ◌≡◌, refl, ◌⊎◌, inl, inr, List, [], IoError, ap, ◌∙◌, arith,
}
use rust_http_proxy.Common.Bytes.{Bytes}
use rust_http_proxy.Common.Numbers.{u64_mod}
use rust_http_proxy.Http.{Http, Request}
use rust_http_proxy.Ip.{SocketAddr}
use rust_http_proxy.Labels.{AccessLabel, ReverseProxyReqLabel}
use rust_http_proxy.Metrics.{Family}
use rust_http_proxy.Metrics.Sums.{sum, inc_all, value-inc_all_self}
use rust_http_proxy.IoX.{Stream}
use rust_http_proxy.IoX.Counter as Counter
use rust_http_proxy.IoX.Counter.{CounterIo, counter_stream}
use rust_http_proxy.IoX.Timeout as Timeout
use rust_http_proxy.IoX.Timeout.{Timer}
use rust_http_proxy.IoX.Traffic.{Call, Timed, counted_all, poll_all, poll_all-counted}
use rust_http_proxy.Config.{Networks}
use rust_http_proxy.Proxy.Handle.{Env, tunnelled, handle}
use rust_http_proxy.Proxy.Access.{Passed}
use rust_http_proxy.Proxy.Safety.{handle-Passed}
use rust_http_proxy.Proxy.Tunnel.Task.{idle_timeout, ErrorTexts, tunnel, tunnel_task}

module _ (family : Family AccessLabel) (timer : Timer) (tcp : Stream) {Upgraded : Type 0}
    (copy_bidirectional : Upgraded
      → Timed tcp family timer
      → Timed tcp family timer × (IoError ⊎ (ℕ × ℕ)))
    (polls : Upgraded → Timed tcp family timer → List (ℕ × Call)) where
  -- Copying touches the stream to the target by polls only.
  abbrev pub OnlyPolls : Type 0
  OnlyPolls =
      (u : Upgraded) (t : Timed tcp family timer)
      → (copy_bidirectional u t).0 ≡ poll_all tcp family timer (polls u t) t

  -- The numbers that `CounterIO` counts at these polls, by what the stream to the target answers: none
  -- without a tunnel.
  unfoldable pub carried :
      Bytes ⊎ Upgraded → (Bytes → IoError ⊎ tcp.State) → ℕ → AccessLabel → family.State → List ℕ
  unfolding counted_all
  carried (inl e) connect now l s = []
  carried (inr u) connect now l s = elim (connect l.target) [
    | inl e ↦ []
    | inr target ↦
        let dst_stream = Counter.new tcp family target s l in
        counted_all tcp family
          (polls u (Timeout.new (counter_stream tcp family) timer now dst_stream idle_timeout))
          target
  ]

  module _ (texts : ErrorTexts) (only : OnlyPolls) where
    pub tunnel_task-carried :
        (upgraded : Bytes ⊎ Upgraded) (connect : Bytes → IoError ⊎ tcp.State) (now : ℕ)
        (l : AccessLabel) (s : family.State)
        → (tunnel_task family timer tcp copy_bidirectional texts upgraded connect now l
            s).proxy_traffic
          ≡ inc_all family l (carried upgraded connect now l s) s
    unfolding tunnel_task tunnel carried inc_all Timeout.new Counter.new
    tunnel_task-carried (inl e) connect now l s = refl
    tunnel_task-carried (inr u) connect now l s = opened (connect l.target) refl
      where
        opened :
            (r : IoError ⊎ tcp.State)
            → connect l.target ≡ r
            → (tunnel_task family timer tcp copy_bidirectional texts
                (inr u)
                connect
                now
                l
                s).proxy_traffic
              ≡ inc_all family l (carried (inr u) connect now l s) s
        opened (inl e) c = rw (c, tunnel_task, carried) refl
        opened (inr target) c =
            let t =
              Timeout.new (counter_stream tcp family) timer now (Counter.new tcp family target s l)
                idle_timeout in
            rw (c, tunnel_task, carried)
              (ap (λ t'. t'.inner.traffic_counter) (only u t)
                ∙ poll_all-counted tcp family timer (polls u t) t)

  -- A tunnel that `handle` opens is for a user whom the request's headers let pass, or for
  -- `unknown` where they name none. If copying the bytes touches the stream to the target by polls
  -- only, the tunnel's task adds to the counters the following numbers of these polls, under that
  -- user's label only: for a read that succeeds the length of all that its buffer then holds, what it
  -- held before included; for a write that succeeds the number of bytes that it reports; and for a
  -- vectored write the lengths of all its buffers, whatever it reports. The label's counter, from a
  -- 64-bit value on, grows by their sum, as a 64-bit number; a tunnel that is not established counts
  -- nothing.
  pub tunnel_task-Passed :
      (http : Http) (net : Networks) (requests : Family ReverseProxyReqLabel)
      (env : Env http net requests) (req : Request http) (client : SocketAddr)
      (metrics : requests.State) (l : AccessLabel)
      → (handle http net requests env req client metrics).effect ≡ tunnelled l
      → OnlyPolls
      → (texts : ErrorTexts) (upgraded : Bytes ⊎ Upgraded) (connect : Bytes → IoError ⊎ tcp.State)
        (now : ℕ) (s : family.State)
      → family.value l s < u64_mod
      → let ended =
          tunnel_task family timer tcp copy_bidirectional texts upgraded connect now l s in
        Passed http net requests env req l
        × (ended.proxy_traffic ≡ inc_all family l (carried upgraded connect now l s) s)
        × (family.value l ended.proxy_traffic
            ≡ (family.value l s + sum (carried upgraded connect now l s)) % u64_mod)
  tunnel_task-Passed http net requests env req client metrics l opened only texts upgraded connect
        now s fits =
      let after = tunnel_task-carried texts only upgraded connect now l s in
      (
        handle-Passed http net requests env req client metrics l (ground (arith, opened)),
        after,
        ap (family.value l) after
            ∙ value-inc_all_self family l (carried upgraded connect now l s) s fits,
      )
