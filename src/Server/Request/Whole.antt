-- ===== src/Server/Request/Whole.antt =====
-- `read_request` of examples/server/server.c in whole.
use selfdb.Base.{ℕ, ◌+◌, ◌≤◌, ◌<◌, ◌≡◌, [], Bytes, length, take, drop, some}
use selfdb.Server.Request.{Libc, Request, content_length, user_agent, max_ua_bytes, max_body_bytes}
use selfdb.Server.Request.Body.{Complete}
use selfdb.Server.Request.Head.{Found}

module _ (libc : Libc) (read : ℕ → ℕ → Bytes) (fits : (k n : ℕ) → length (read k n) ≤ n) where
  -- The request stands in what `read` delivered: the head first, then the body, which has the
  -- promised length and begins with what stood behind the blank line.
  pub record IsReceived (req : Request) : Type 0 where
    pub head : Bytes
    pub blank : ℕ
    pub calls : ℕ
    pub found : Found libc read fits 0 [] head blank calls
    pub words : libc.sscanf head ≡ some (req.method, req.path)
    pub agent : req.user_agent ≡ user_agent libc head
    pub agent_fits : length req.user_agent < max_ua_bytes
    pub small : content_length libc head ≤ max_body_bytes
    pub body_whole :
        Complete read fits calls
          (content_length libc head)
          (take (content_length libc head) (drop (blank + 4) head))
          req.body
