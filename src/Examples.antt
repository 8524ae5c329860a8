-- ===== src/Examples.antt =====
-- Tests of the model on small inputs, and the theorems at concrete ones.
mod Calling
mod Guards
mod Video
mod Wire
mod Serving
mod Trusting
mod Showing
mod Peering
mod Local
mod Answering
mod Connecting
