-- ===== src/Session/Open/Moved.antt =====
-- About `Session::open` of crates/engine/src/session.rs: the cache that it opens, and the refs that it
-- finds.
use git_bamboo.Prelude.Text.{Text}
use git_bamboo.Host.{Host}
use git_bamboo.Session.Open.{Opening, Session}
