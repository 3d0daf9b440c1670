-- ===== src/Os.antt =====
-- ProperOS/src, whose functions are not written yet: the two queues that threads share, by what the
-- headers say of their calls, taken one after the other in any order.
pub mod Slots
pub mod Bounded
pub mod Spsc
mod Examples
