-- ===== src/Tests.antt =====
-- Tests of the model on concrete inputs, and the theorems at inputs that meet their hypotheses.
mod Fake
mod Filepath
mod Transactions
mod Versions
mod Names
mod Plans
mod Paths
mod Queries
mod Applications
mod Files
mod Escape
mod Rest
mod RestLaws
mod Client
mod Serving
mod Pages
mod Units
mod Documents
mod Starting
