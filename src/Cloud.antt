-- ===== src/Cloud.antt =====
-- cloud/: the controller of one region of one cloud provider. It joins the machines that the
-- provider lists with the machine table, the table with the blueprint, and acts on the difference.
pub mod Machines
pub mod Join
pub mod Expected
pub mod Mirror
pub mod Loops
pub mod Plan
pub mod Acls
pub mod Desired
pub mod Whole
