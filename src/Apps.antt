-- ===== src/Apps.antt =====
-- The example applications, example-app1.go to example-app5.go, as programs that call latlearn. What
-- they print with `log`, their sleeps, and what they compute only to take time are left out.
pub mod App1
pub mod App4
pub mod App2
pub mod App3
pub mod App5
